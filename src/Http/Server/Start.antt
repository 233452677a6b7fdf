-- ===== src/Http/Server/Start.antt =====
-- httpServer.c: httpServer_init() and httpServer_Sockinit().
use x_wizchip_io_library_dri.Base.{
  ℕ, zero, suc, ◌+◌, ◌≤◌, ◌==◌, ◌≡◌, refl, ap, ◌∙◌, true, false, Option, none, some, List, [], ◌∷◌,
  ◌++◌, length, replicate, drop, All, arith,
}
use x_wizchip_io_library_dri.Http.Server.{
  Server, state_http_idle, sequence_from, get_http_sequence_num,
}
use x_wizchip_io_library_dri.Http.Server.Passes.{slot_of, fresh}

-- The loop of httpServer_Sockinit() over HTTPSock_Num; `none` is an access outside it or the list.
unfoldable pub http_server_sockinit : ℕ → List ℕ → List ℕ → Option (List ℕ)
http_server_sockinit zero socklist nums = some nums
http_server_sockinit (suc n) (s ∷ socklist) (x ∷ nums) =
    elim (http_server_sockinit n socklist nums) [ none ↦ none | some rest ↦ some (s ∷ rest) ]
http_server_sockinit (suc n) _ _ = none

-- The variables as they are initialised, behind httpServer_init(), which keeps the two buffers besides.
unfoldable pub http_server_init : ℕ → List ℕ → Option Server
http_server_init cnt socklist = elim (http_server_sockinit cnt socklist (replicate 8 0)) [
  | none ↦ none
  | some nums ↦
      some (record { sock_num = nums; slots = replicate 8 (slot_of state_http_idle (fresh [] 0)) })
]

abbrev IsOther : ℕ → ℕ → Type 0
IsOther s n = (n == s) ≡ false

sockinit_lem :
    (socklist nums : List ℕ)
    → length socklist ≤ length nums
    → http_server_sockinit (length socklist) socklist nums
      ≡ some (socklist ++ drop (length socklist) nums)
unfolding http_server_sockinit
sockinit_lem [] nums h = refl
sockinit_lem (s ∷ socklist) (x ∷ nums) h = rw (sockinit_lem socklist nums (omega arith)) refl
sockinit_lem (s ∷ socklist) [] h = let wrong : ⊥ = omega arith in elim wrong [ ]

sequence_from_lem :
    (i s : ℕ) (before after rest : List ℕ)
    → All (IsOther s) before
    → sequence_from i s ((before ++ s ∷ after) ++ rest) ≡ some (i + length before)
sequence_from_lem i s [] after rest h =
    let same : (s == s) ≡ true = ground arith in rw same (ap some (omega arith))
sequence_from_lem i s (n ∷ before) after rest (h, hs) =
    rw (h, sequence_from_lem (suc i) s before after rest hs) (ap some (omega arith))

-- A socket has the number of its first place in the list that the server was started with.
http_server_init-sequence_num :
    (before after : List ℕ) (s : ℕ)
    → length (before ++ s ∷ after) ≤ 8
    → All (IsOther s) before
    → (server : Server) × (http_server_init (length (before ++ s ∷ after)) (before ++ s ∷ after)
        ≡ some server)
      × (get_http_sequence_num s server.sock_num ≡ some (length before))
unfolding http_server_init get_http_sequence_num
http_server_init-sequence_num before after s few h =
    let socklist = before ++ s ∷ after in
    let rest : List ℕ = drop (length socklist) (replicate 8 0) in
    let told = sockinit_lem socklist (replicate 8 0) few in
    (
      record {
        sock_num = socklist ++ rest;
        slots = replicate 8 (slot_of state_http_idle (fresh [] 0));
      },
      rw (told, http_server_init) refl,
      sequence_from_lem 0 s before after rest h ∙ ap some (omega arith),
    )
