-- ===== src/Banner/Tests.antt =====
-- Tests of parse_banner on banners that adbd sends.
use adb_server_project.Common.{ℕ, List, arith, ◌≡◌, refl, ◌++◌, ◌∷◌, [], none, some}
use adb_server_project.CString.{codes, strcmp_eq}
use adb_server_project.Banner.{
  ConnectionState, Quals, device, parse_banner, parse_fields, parse_properties, store_property,
  store, state_of,
}
use adb_server_project.CString.Split.{IsText}
use adb_server_project.CString.Search.{Without, Without-is_without}
use adb_server_project.Banner.Total.{parse_banner-total, IsOnlineState}
use adb_server_project.Banner.Format.{
  parse_banner-format_banner, format_banner, last_values, AllPlain,
}

abbrev pub no_quals : Quals
no_quals = record { product = none; model = none; device = none }

phone_banner :
    parse_banner
      (codes "device::ro.product.name=hammer;ro.product.model=N5;" ++ 0 ∷ 7 ∷ [])
      no_quals
    ≡ some (
      device,
      record { product = some (codes "hammer"); model = some (codes "N5"); device = none },
    )
unfolding parse_banner parse_fields parse_properties store_property store state_of
phone_banner = refl

device-IsText : IsText (codes "device")
device-IsText = Without-is_without 0 (codes "device") refl

device-Without : Without b':' (codes "device")
device-Without = Without-is_without b':' (codes "device") refl

parse_banner-total_example :
    (r : ConnectionState × Quals) × ((junk : List ℕ)
      → parse_banner (codes "device" ++ 0 ∷ junk) no_quals ≡ some r)
    × IsOnlineState r.0
parse_banner-total_example = parse_banner-total (codes "device") no_quals device-IsText

abbrev key_pair : List (List ℕ × List ℕ)
key_pair = (codes "k", codes "v") ∷ []

key_pair-AllPlain : AllPlain key_pair
key_pair-AllPlain = (
  (
    ((λ e. absurd (omega arith)), tt),
    ((λ e. absurd (omega arith)), tt),
    ((λ e. absurd (omega arith)), tt),
    ((λ e. absurd (omega arith)), tt),
    ((λ e. absurd (omega arith)), tt),
  ),
  tt,
)

parse_banner-format_banner_example :
    parse_banner (format_banner (codes "device") [] key_pair ++ 0 ∷ 7 ∷ []) no_quals
    ≡ some (device, last_values key_pair no_quals)
unfolding strcmp_eq
parse_banner-format_banner_example =
    parse_banner-format_banner (codes "device") [] (7 ∷ []) key_pair no_quals device-IsText
      device-Without tt tt key_pair-AllPlain
