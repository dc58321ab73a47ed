-- ===== src/Auth/Address.antt =====
-- ClientIP of internal/auth/auth.go. A text is its list of code points.
use gogolook_task_api.Prelude.{
  ℕ, suc, zero, ◌+◌, ◌-◌, Bool, false, not, ◌&&◌, ◌||◌, Option, none, some, List, [], ◌∷◌, ◌++◌,
  ◌==◌, ltb, length, if◌then◌else◌,
}
use gogolook_task_api.Prelude.Int.{ℤ, pos}
use gogolook_task_api.Task.{trim_space, is_empty}

abbrev pub has : ℕ → List ℕ → Bool
has c [] = false
has c (d ∷ s) = d == c || has c s

-- The text in front of the first `c` and the text behind it, and the same at the last one.
unfoldable pub cut_first : ℕ → List ℕ → Option (List ℕ × List ℕ)
cut_first c [] = none
cut_first c (d ∷ s) =
    let rest = cut_first c s in
    if d == c then some ([], s) else elim rest [ none ↦ none | some (a, b) ↦ some (d ∷ a, b) ]

unfoldable pub cut_last : ℕ → List ℕ → Option (List ℕ × List ℕ)
cut_last c [] = none
cut_last c (d ∷ s) = elim (cut_last c s) [
  | some (a, b) ↦ some (d ∷ a, b)
  | none ↦ if d == c then some ([], s) else none
]

-- The host of `net.SplitHostPort` in brackets: the first "]" ends it, and the last ":" follows.
unfoldable pub bracketed_host : Option (List ℕ × List ℕ) → List ℕ → Option (List ℕ)
bracketed_host none port = none
bracketed_host (some (h, rest)) port =
    if is_empty rest && not (has 0x5b h || (has 0x5b port || has 0x5d port)) then some h else none

unfoldable pub plain_host : List ℕ → List ℕ → Option (List ℕ)
plain_host h port =
    if has 0x3a h || (has 0x5b h || (has 0x5d h || (has 0x5b port || has 0x5d port)))
    then none
    else some h

unfoldable pub host_before : List ℕ → List ℕ → Option (List ℕ)
unfolding bracketed_host plain_host cut_first
host_before [] port = plain_host [] port
host_before (c ∷ h) port =
    if c == 0x5b then bracketed_host (cut_first 0x5d h) port else plain_host (c ∷ h) port

unfoldable pub split_host : Option (List ℕ × List ℕ) → Option (List ℕ)
unfolding host_before
split_host none = none
split_host (some (before, port)) = host_before before port

abbrev pub host_or : Option (List ℕ) → List ℕ → List ℕ
host_or none addr = addr
host_or (some h) addr = h

-- `host`: the address without its port, where it has one.
unfoldable pub host : List ℕ → List ℕ
unfolding split_host cut_last
host addr = host_or (split_host (cut_last 0x3a addr)) addr

abbrev pub comma : ℕ
comma = 0x2c

-- `strings.Split` at a comma.
abbrev pub onto_first : ℕ → List (List ℕ) → List (List ℕ)
onto_first c [] = (c ∷ []) ∷ []
onto_first c (p ∷ ps) = (c ∷ p) ∷ ps

unfoldable pub split_commas : List ℕ → List (List ℕ)
split_commas [] = [] ∷ []
split_commas (c ∷ s) =
    let rest = split_commas s in if c == comma then [] ∷ rest else onto_first c rest

unfoldable pub entries : List (List ℕ) → List (List ℕ)
unfolding host
entries [] = []
entries (p ∷ ps) =
    let rest = entries ps in if is_empty (trim_space p) then rest else host (trim_space p) ∷ rest

-- `forwardedFor`.
unfoldable pub forwarded_for : List ℕ → List (List ℕ)
unfolding split_commas entries
forwarded_for header = if is_empty header then [] else entries (split_commas header)

unfoldable pub element_or : List ℕ → ℕ → List (List ℕ) → List ℕ
element_or d i [] = d
element_or d zero (x ∷ xs) = x
element_or d (suc i) (x ∷ xs) = element_or d i xs

-- The entry that many places in front of the chain's last, which is the peer.
unfoldable pub before_proxies : ℕ → List ℕ → List (List ℕ) → List ℕ
unfolding element_or
before_proxies hops peer chain =
    if ltb (length chain) (hops + 1)
    then peer
    else element_or peer (length chain - (hops + 1)) chain

-- `Header.Get`: the first line of a header.
abbrev pub first_line : List (List ℕ) → List ℕ
first_line [] = []
first_line (l ∷ ls) = l

-- `ClientIP`, of the peer's address, the lines of X-Forwarded-For and the trusted hops.
unfoldable pub client_ip : List ℕ → List (List ℕ) → ℤ → List ℕ
unfolding host forwarded_for before_proxies
client_ip remote lines (ℤ.negsuc n) = host remote
client_ip remote lines (pos hops) =
    if hops == 0
    then host remote
    else before_proxies hops (host remote) (forwarded_for (first_line lines) ++ host remote ∷ [])
