-- ===== src/Auth/Tests.antt =====
-- Tests of the choice of keys.
use adb_server_project.Common.{◌≡◌, refl, [], ◌∷◌, none, some, arith}
use adb_server_project.Auth.{adb_auth_nextkey, next_after}
use adb_server_project.Auth.Keys.{Distinct, keys_tried, keys_tried-all}

second_key : adb_auth_nextkey (11 ∷ 12 ∷ []) (some 11) ≡ some 12
unfolding adb_auth_nextkey next_after
second_key = refl

two_keys-Distinct : Distinct (11 ∷ 12 ∷ [])
two_keys-Distinct = (((λ e. absurd (omega arith)), tt), (tt, tt))

keys_tried-all_example : keys_tried 3 (11 ∷ 12 ∷ []) none ≡ 11 ∷ 12 ∷ []
keys_tried-all_example = keys_tried-all 3 (11 ∷ 12 ∷ []) two_keys-Distinct (omega arith)
