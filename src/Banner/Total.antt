-- ===== src/Banner/Total.antt =====
-- parse_banner returns on every NUL-terminated banner, reads nothing behind the NUL, and never
-- leaves the transport offline.
use adb_server_project.Common.{
  ℕ, ◌≡◌, refl, ◌⊎◌, inl, inr, List, ◌∷◌, ◌++◌, some, none, arith, length-append,
}
use adb_server_project.CString.{codes}
use adb_server_project.CString.Split.{IsText, words, for_tokens-adb_strtok_r}
use adb_server_project.CString.Search.{strchr-Searched}
use adb_server_project.Banner.{
  Quals, ConnectionState, bootloader, device, host, recovery, sideload, parse_banner, parse_fields,
  parse_properties, store_property, state_of,
}
use mathlib.Core.List.{foldl}

-- The pairs of a terminated property text are stored in order.
pub parse_properties-eq :
    (props junk : List ℕ) (q : Quals)
    → IsText props
    → parse_properties (props ++ 0 ∷ junk) q
      ≡ some (foldl store_property q (words (codes ";") props))
unfolding parse_properties
parse_properties-eq props junk q h =
    for_tokens-adb_strtok_r (codes ";") junk none store_property refl _ props q h
      (omega (arith, length-append props (0 ∷ junk)))

-- What the second and third fields do, whatever lies behind the NUL.
parse_fields-total :
    (rest : List ℕ) (q : Quals)
    → IsText rest
    → (r : Quals) × ((junk : List ℕ) → parse_fields (rest ++ 0 ∷ junk) q ≡ some r)
unfolding parse_fields
parse_fields-total rest q h = elim (strchr-Searched b':' rest h) [
  | inl t ↦ (q, λ junk. rw (t junk, parse_fields) refl)
  | inr (before, props, t, parts, ok) ↦ (
    foldl store_property q (words (codes ";") props),
    λ junk. rw (t junk, parse_fields) (parse_properties-eq props junk q ok),
  )
]

-- The states that a banner can lead to.
abbrev pub IsOnlineState : ConnectionState → Type 0
IsOnlineState s = (s ≡ bootloader) ⊎ (s ≡ device) ⊎ (s ≡ recovery) ⊎ (s ≡ sideload) ⊎ (s ≡ host)

state_of-IsOnlineState : (kind : List ℕ) → IsOnlineState (state_of kind)
unfolding state_of
state_of-IsOnlineState kind = ground arith

-- On every banner that ends with a NUL, parse_banner returns; the result does not depend on what
-- the packet's array holds behind the NUL, and the state is one of the five of connected devices,
-- never CS_OFFLINE.
pub parse_banner-total :
    (banner : List ℕ) (q : Quals)
    → IsText banner
    → (r : ConnectionState × Quals) × ((junk : List ℕ)
        → parse_banner (banner ++ 0 ∷ junk) q ≡ some r)
      × IsOnlineState r.0
unfolding parse_banner
parse_banner-total banner q h = elim (strchr-Searched b':' banner h) [
  | inl t ↦
      ((state_of banner, q), λ junk. rw (t junk, parse_banner) refl, state_of-IsOnlineState banner)
  | inr (kind, rest, t, parts, ok) ↦
      let (r, e) = parse_fields-total rest q ok in
      (
        (state_of kind, r),
        λ junk. rw (t junk, parse_banner) (rw (e junk) refl),
        state_of-IsOnlineState kind,
      )
]
