-- ===== src/Client/Url.antt =====
-- The address that the agent connects to.
use taymna.Common.{ℕ, ◌≡◌, ◌≢◌, ◌⊎◌, inl, inr, refl, ◌++◌, [], ◌∷◌, arith, Option-cases}
use taymna.Common.Text.{Str, codes, trim_end_matches, strip_prefix, strip_prefix-eq-some}
use taymna.Client.{ws_url_of, to_ws_url}

List-cases : (s : Str) → (s ≡ []) ⊎ ((c : ℕ) × (t : Str) × (s ≡ c ∷ t))
List-cases [] = inl refl
List-cases (c ∷ t) = inr (c, t, refl)

-- An address with the scheme `https` or `http` gets `wss` or `ws` in its place; what follows, if
-- it is more than slashes, is kept without trailing slashes in front of `/ws`.
pub to_ws_url_forms :
    (s : Str)
    → trim_end_matches b'/' s ≢ []
    → (to_ws_url (codes "https://" ++ s)
        ≡ codes "wss://" ++ (trim_end_matches b'/' s ++ codes "/ws"))
      × (to_ws_url (codes "http://" ++ s)
          ≡ codes "ws://" ++ (trim_end_matches b'/' s ++ codes "/ws"))
unfolding to_ws_url
to_ws_url_forms s h = elim (List-cases (trim_end_matches b'/' s)) [
  | inl e ↦ absurd (h e)
  | inr (c, t, e) ↦ rw (e, to_ws_url) (refl, refl)
]

ws_url_of_plain :
    (base rest : Str)
    → ws_url_of base ≡ codes "ws://" ++ rest
    → (host : Str) × (base ≡ codes "http://" ++ host) × (rest ≡ host ++ codes "/ws")
unfolding ws_url_of
ws_url_of_plain base rest h = elim (Option-cases (strip_prefix (codes "https://") base)) [
  | inr (host, e) ↦ absurd (ground arith)
  | inl n ↦ elim (Option-cases (strip_prefix (codes "http://") base)) [
    | inl m ↦ absurd (ground arith)
    | inr (host, e) ↦ (host, strip_prefix-eq-some (codes "http://") base host e, ground arith)
  ]
]

-- The connection is unencrypted only if the server's address says `http://`.
pub to_ws_url_plain :
    (s rest : Str)
    → to_ws_url s ≡ codes "ws://" ++ rest
    → (host : Str) × (trim_end_matches b'/' s ≡ codes "http://" ++ host)
      × (rest ≡ host ++ codes "/ws")
to_ws_url_plain s rest h = ws_url_of_plain (trim_end_matches b'/' s) rest (unfold to_ws_url in h)
