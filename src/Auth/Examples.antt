-- ===== src/Auth/Examples.antt =====
-- The theorems on callers at concrete inputs.
use gogolook_task_api.Prelude.{ℕ, List, [], ◌∷◌, ◌++◌, ◌≡◌, arith}
use gogolook_task_api.Prelude.Int.{pos}
use gogolook_task_api.Task.{trim_space, trim_left, is_space}
use gogolook_task_api.Auth.Address.{comma, client_ip, forwarded_for, split_commas, entries}
use gogolook_task_api.Auth.Resolving.{auth_required, Resolver, Request}
use gogolook_task_api.Auth.Spoofing.{client_ip-append}

abbrev peer : List ℕ
peer = 49 ∷ 58 ∷ 56 ∷ []

-- The text that the caller wrote, and the address that one trusted proxy has appended.
abbrev forged : List ℕ
forged = 54 ∷ 54 ∷ []

abbrev seen_by_proxy : List ℕ
seen_by_proxy = 32 ∷ 55 ∷ []

abbrev same_text : List ℕ → List ℕ
same_text s = s

abbrev guarded_api : Resolver
guarded_api = record {
  mode = auth_required;
  clients = record { id = 97 ∷ []; tier = 98 ∷ []; digest = 120 ∷ [] } ∷ [];
  hops = pos 1;
}

-- "Bearer x".
abbrev with_token : Request
with_token = record {
  remote = peer;
  authorization = 66 ∷ 101 ∷ 97 ∷ 114 ∷ 101 ∷ 114 ∷ 32 ∷ 120 ∷ [];
  forwarded = forged ∷ [];
}

client_ip-append_example :
    client_ip peer ((forged ++ comma ∷ seen_by_proxy) ∷ []) (pos 1)
    ≡ client_ip peer (seen_by_proxy ∷ []) (pos 1)
unfolding forwarded_for split_commas entries trim_space trim_left is_space
client_ip-append_example = client_ip-append peer forged seen_by_proxy 1 [] (omega arith)
