-- ===== src/Banner.antt =====
-- Catransport::parse_banner: the connection state and the product qualifiers that a device names in
-- its CNXN packet.
pub mod Format
pub mod Total
pub mod Tests
use adb_server_project.Common.{
  ℕ, ◌≡◌, Bool, true, false, List, [], ◌∷◌, Option, none, some, if◌then◌else◌, ◌==◌, length,
}
use adb_server_project.CString.{
  codes, strcmp_eq, Found, absent, found, outside, strchr, adb_strtok_r, for_tokens, qual_overwrite,
}

-- The CS_ constants of adb_struct.h.
pub data ConnectionState : Type 0 where
  any offline bootloader device host recovery noperm sideload : ConnectionState

pub record Quals : Type 0 where
  pub product : Option (List ℕ)
  pub model : Option (List ℕ)
  pub device : Option (List ℕ)

abbrev pub cons_cut : ℕ → Option (List ℕ × List ℕ) → Option (List ℕ × List ℕ)
cons_cut b none = none
cons_cut b (some (s, rest)) = some (b ∷ s, rest)

-- strchr and the cut behind it, on a string that the tokenizer has ended with a NUL.
pub cut_at : ℕ → List ℕ → Option (List ℕ × List ℕ)
cut_at c [] = none
cut_at c (d ∷ s) = if d == c then some ([], s) else cons_cut d (cut_at c s)

pub store : Quals → List ℕ → List ℕ → Quals
unfolding strcmp_eq qual_overwrite
store q key value =
    if strcmp_eq key (codes "ro.product.name")
    then record q { product = qual_overwrite q.product (some value) }
    else (if strcmp_eq key (codes "ro.product.model")
        then record q { model = qual_overwrite q.model (some value) }
        else (if strcmp_eq key (codes "ro.product.device")
            then record q { device = qual_overwrite q.device (some value) }
            else q))

-- The body of the loop over `key=value` pairs.
pub store_property : Quals → List ℕ → Quals
unfolding cut_at store
store_property q pair = elim (cut_at b'=' pair) [ none ↦ q | some (key, value) ↦ store q key value ]

pub state_of : List ℕ → ConnectionState
unfolding strcmp_eq
state_of kind =
    if strcmp_eq kind (codes "bootloader")
    then bootloader
    else (if strcmp_eq kind (codes "device")
        then device
        else (if strcmp_eq kind (codes "recovery")
            then recovery
            else (if strcmp_eq kind (codes "sideload") then sideload else host)))

pub parse_properties : List ℕ → Quals → Option Quals
unfolding adb_strtok_r for_tokens store_property
parse_properties props q =
    for_tokens (length props) (codes ";") store_property
      (adb_strtok_r (some props) (codes ";") none) q

-- Behind the first colon: the second field is skipped.
pub parse_fields : List ℕ → Quals → Option Quals
unfolding strchr parse_properties
parse_fields rest q = elim (strchr rest b':') [
  | outside ↦ none
  | absent _ ↦ some q
  | found _ props ↦ parse_properties props q
]

abbrev with_state : List ℕ → Option Quals → Option (ConnectionState × Quals)
with_state kind none = none
with_state kind (some q) = some (state_of kind, q)

-- The new connection state and qualifiers; `none` is a read past the array.
unfoldable pub parse_banner : List ℕ → Quals → Option (ConnectionState × Quals)
unfolding strchr parse_fields state_of
parse_banner banner q = elim (strchr banner b':') [
  | outside ↦ none
  | absent kind ↦ with_state kind (some q)
  | found kind rest ↦ with_state kind (parse_fields rest q)
]
