-- ===== src/Ratelimit/Inflight.antt =====
-- internal/ratelimit/inflight.go: the semaphore, the requests that `next.ServeHTTP` is running, and
-- those that were shed.
use gogolook_task_api.Prelude.{
  ℕ, suc, ◌+◌, ◌-◌, ◌≤◌, Bool, true, false, List, [], ◌∷◌, ltb, if◌then◌else◌, ◌≡◌, refl, arith,
  ◌==◌, length,
}

-- A request comes, by its number, or the handler of one returns or panics.
pub data Passage : Type 0 where
  arrives ends : ℕ → Passage

-- The length of the buffered channel `slots`; the requests inside `next.ServeHTTP`; those whose
-- handler has ended; and those answered 503 with Retry-After. The last one is first.
pub record Serving : Type 0 where
  pub slots : ℕ
  pub served : List ℕ
  pub ended : List ℕ
  pub shed : List ℕ

abbrev pub idle : Serving
idle = record { slots = 0; served = []; ended = []; shed = [] }

-- `case slots <- struct{}{}`: whether the buffer takes one more, and its length after.
unfoldable pub acquire : (limit slots : ℕ) → Bool × ℕ
acquire limit slots = if ltb slots limit then (true, suc slots) else (false, slots)

-- The handler of the middleware up to its return, or up to `next.ServeHTTP`.
unfoldable pub arrive : (limit : ℕ) → ℕ → Serving → Serving
unfolding acquire
arrive limit r s =
    let (taken, slots) = acquire limit s.slots in
    if taken
    then record s { slots = slots; served = r ∷ s.served }
    else record s { slots = slots; shed = r ∷ s.shed }

abbrev pub is_served : ℕ → List ℕ → Bool
is_served r [] = false
is_served r (q ∷ rs) = if q == r then true else is_served r rs

abbrev pub drop_one : ℕ → List ℕ → List ℕ
drop_one r [] = []
drop_one r (q ∷ rs) = let rest = drop_one r rs in if q == r then rs else q ∷ rest

-- `next.ServeHTTP` of a request returns or panics, and the deferred `<-slots` runs. A request that
-- is not in it has nothing to end.
unfoldable pub end : ℕ → Serving → Serving
end r s =
    if is_served r s.served
    then record s { slots = s.slots - 1; served = drop_one r s.served; ended = r ∷ s.ended }
    else s

unfoldable pub pass : (limit : ℕ) → Passage → Serving → Serving
unfolding arrive end
pass limit (arrives r) s = arrive limit r s
pass limit (ends r) s = end r s

unfoldable pub passes : (limit : ℕ) → List Passage → Serving → Serving
unfolding pass
passes limit [] s = s
passes limit (p ∷ ps) s = passes limit ps (pass limit p s)

-- Each request that is served holds one slot, and no more of them are than the limit.
abbrev IsBounded : ℕ → Serving → Type 0
IsBounded limit s = (s.slots ≡ length s.served) × (length s.served ≤ limit)

length-drop_one :
    (r : ℕ) (rs : List ℕ) → is_served r rs ≡ true → suc (length (drop_one r rs)) ≡ length rs
length-drop_one r [] h = ground arith
length-drop_one r (q ∷ rs) h = ground (arith, length-drop_one r rs)

pass-IsBounded :
    (limit : ℕ) (p : Passage) (s : Serving) → IsBounded limit s → IsBounded limit (pass limit p s)
unfolding pass arrive acquire end
pass-IsBounded limit (arrives r) s (same, few) = ground arith
pass-IsBounded limit (ends r) s (same, few) = ground (arith, length-drop_one r s.served)

passes-IsBounded :
    (limit : ℕ) (ps : List Passage) (s : Serving)
    → IsBounded limit s
    → IsBounded limit (passes limit ps s)
unfolding passes
passes-IsBounded limit [] s b = b
passes-IsBounded limit (p ∷ ps) s b =
    passes-IsBounded limit ps (pass limit p s) (pass-IsBounded limit p s b)

abbrev pub arrivals : List Passage → ℕ
arrivals [] = 0
arrivals (arrives r ∷ ps) = suc (arrivals ps)
arrivals (ends r ∷ ps) = arrivals ps

-- The requests that have come.
abbrev pub known : Serving → ℕ
known s = length s.served + (length s.ended + length s.shed)

pass-known :
    (limit : ℕ) (p : Passage) (s : Serving) → known (pass limit p s) ≡ known s + arrivals (p ∷ [])
unfolding pass arrive acquire end
pass-known limit (arrives r) s = ground arith
pass-known limit (ends r) s = ground (arith, length-drop_one r s.served)

passes-known :
    (limit : ℕ) (ps : List Passage) (s : Serving)
    → known (passes limit ps s) ≡ known s + arrivals ps
unfolding passes
passes-known limit [] s = omega arith
passes-known limit (arrives r ∷ ps) s =
    omega (arith, passes-known limit ps (pass limit (arrives r) s), pass-known limit (arrives r) s)
passes-known limit (ends r ∷ ps) s =
    omega (arith, passes-known limit ps (pass limit (ends r) s), pass-known limit (ends r) s)

-- However requests have come and handlers ended since nothing was in flight: each request inside
-- the next handler holds one slot, and no more are inside than the limit; as many requests have
-- come as are inside, have ended or were shed. Where fewer are inside than the limit, the next
-- request goes inside and none is shed; otherwise it is shed and none goes inside. When the handler
-- of a request that is inside ends, one request fewer is inside, and one slot fewer is taken.
pub passes-arrive :
    (limit : ℕ) (ps : List Passage) (r q : ℕ)
    → let s = passes limit ps idle in
      let next = arrive limit r s in
      let after = end q s in
      (s.slots ≡ length s.served)
      × (length s.served ≤ limit)
      × (known s ≡ arrivals ps)
      × (next.served ≡ (if ltb (length s.served) limit then r ∷ s.served else s.served))
      × (next.shed ≡ (if ltb (length s.served) limit then s.shed else r ∷ s.shed))
      × (length s.served
          ≡ (if is_served q s.served then suc (length after.served) else length after.served))
      × (after.slots ≡ length after.served)
      × (after.shed ≡ s.shed)
unfolding arrive acquire end
passes-arrive limit ps r q =
    let s = passes limit ps idle in
    let (same, few) = passes-IsBounded limit ps idle (refl, omega arith) in
    (
      same,
      few,
      omega (arith, passes-known limit ps idle),
      ground arith,
      ground arith,
      ground (arith, length-drop_one q s.served),
      ground (arith, length-drop_one q s.served),
      ground arith,
    )
