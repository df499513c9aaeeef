-- ===== src/Banner/Format.antt =====
-- parse_banner undoes the printing of a banner `kind:serial:key=value;...`, the text that adbd sends.
use mathlib.Core.List.{foldl}
use adb_server_project.Common.{
  ℕ, ◌≡◌, refl, sym, inl, inr, true, false, Option, none, if◌then◌else◌, ◌==◌, Bool-cases, List, [],
  ◌∷◌, ◌++◌, some, arith, append_assoc, ap, ◌∙◌, subst,
}
use adb_server_project.CString.{codes, strcmp_eq, qual_overwrite}
use adb_server_project.CString.Split.{IsText, words, split}
use adb_server_project.CString.Search.{Without, strchr-found}
use adb_server_project.Banner.{
  ConnectionState, Quals, device, recovery, bootloader, sideload, host, parse_banner, parse_fields,
  store, store_property, cut_at, state_of, with_state,
}
use adb_server_project.Banner.Total.{parse_properties-eq}

abbrev pub format_properties : List (List ℕ × List ℕ) → List ℕ
format_properties [] = []
format_properties ((key, value) ∷ ps) = key ++ b'=' ∷ (value ++ b';' ∷ format_properties ps)

abbrev pub format_banner : List ℕ → List ℕ → List (List ℕ × List ℕ) → List ℕ
format_banner kind serial ps = kind ++ b':' ∷ (serial ++ b':' ∷ format_properties ps)

-- Keys and values that the banner's punctuation does not cut.
abbrev pub AllPlain : List (List ℕ × List ℕ) → Type 0
AllPlain [] = Unit {0}
AllPlain ((key, value) ∷ ps) =
    (IsText key × Without b'=' key × Without b';' key × IsText value × Without b';' value)
    × AllPlain ps

IsText-append : (a b : List ℕ) → IsText a → IsText b → IsText (a ++ b)
IsText-append [] b ha hb = hb
IsText-append (c ∷ a) b ha hb = (ha.0, IsText-append a b ha.1 hb)

Without-append : (c : ℕ) (a b : List ℕ) → Without c a → Without c b → Without c (a ++ b)
Without-append c [] b ha hb = hb
Without-append c (d ∷ a) b ha hb = (ha.0, Without-append c a b ha.1 hb)

format_properties-IsText :
    (ps : List (List ℕ × List ℕ)) → AllPlain ps → IsText (format_properties ps)
format_properties-IsText [] h = tt
format_properties-IsText ((key, value) ∷ ps) h = IsText-append key _ h.0.0 (
  (λ e. absurd (omega arith)),
  IsText-append value _ h.0.3 ((λ e. absurd (omega arith)), format_properties-IsText ps h.1),
)

split-found :
    (c : ℕ) (a rest : List ℕ)
    → Without c a
    → split (c ∷ []) (a ++ c ∷ rest) ≡ (a, (split (c ∷ []) rest).0 ∷ (split (c ∷ []) rest).1)
split-found c [] rest w = ground arith
split-found c (d ∷ a) rest w = ground (arith, split-found c a rest w.1)

words-found :
    (c d : ℕ) (a rest : List ℕ)
    → Without c (d ∷ a)
    → words (c ∷ []) (d ∷ a ++ c ∷ rest) ≡ (d ∷ a) ∷ words (c ∷ []) rest
words-found c d a rest w = rw (split-found c (d ∷ a) rest w)

cut_at-found : (c : ℕ) (a b : List ℕ) → Without c a → cut_at c (a ++ c ∷ b) ≡ some (a, b)
unfolding cut_at
cut_at-found c [] b w = ground arith
cut_at-found c (d ∷ a) b w = ground (arith, cut_at-found c a b w.1)

-- A pair is never an empty field, whatever its key.
words-pair :
    (key value rest : List ℕ)
    → Without b';' key
    → Without b';' value
    → words (codes ";") ((key ++ b'=' ∷ value) ++ b';' ∷ rest)
      ≡ (key ++ b'=' ∷ value) ∷ words (codes ";") rest
words-pair [] value rest wk wv = words-found b';' b'=' value rest ((λ e. absurd (omega arith)), wv)
words-pair (c ∷ key) value rest wk wv =
    words-found b';' c (key ++ b'=' ∷ value) rest
      (wk.0, Without-append b';' key (b'=' ∷ value) wk.1 ((λ e. absurd (omega arith)), wv))

store_property-pair :
    (q : Quals) (key value : List ℕ)
    → Without b'=' key
    → store_property q (key ++ b'=' ∷ value) ≡ store q key value
unfolding store_property
store_property-pair q key value w = rw (cut_at-found b'=' key value w, store_property) refl

-- The printed pairs are stored one by one.
abbrev pub store_all : Quals → List (List ℕ × List ℕ) → Quals
store_all q [] = q
store_all q ((key, value) ∷ ps) = store_all (store q key value) ps

fold-format_properties :
    (ps : List (List ℕ × List ℕ)) (q : Quals)
    → AllPlain ps
    → foldl store_property q (words (codes ";") (format_properties ps)) ≡ store_all q ps
fold-format_properties [] q h = refl
fold-format_properties ((key, value) ∷ ps) q h =
    rw
      (
        ← append_assoc key (b'=' ∷ value) (b';' ∷ format_properties ps),
        words-pair key value (format_properties ps) h.0.2 h.0.4,
      )
      (ap (λ r. foldl store_property r (words (codes ";") (format_properties ps)))
          (store_property-pair q key value h.0.1)
        ∙ fold-format_properties ps (store q key value) h.1)

-- The kinds of device that a banner can name; any other one is a host.
abbrev kinds : List (List ℕ × ConnectionState)
kinds =
    (codes "device", device)
    ∷ (codes "recovery", recovery)
    ∷ (codes "bootloader", bootloader)
    ∷ (codes "sideload", sideload)
    ∷ []

abbrev named_in : List (List ℕ × ConnectionState) → List ℕ → ConnectionState
named_in [] kind = host
named_in ((name, state) ∷ l) kind =
    let rest = named_in l kind in if strcmp_eq kind name then state else rest

abbrev pub named_state : List ℕ → ConnectionState
named_state = named_in kinds

-- A qualifier behind some pairs: the value of the last pair with the key, none where that is empty,
-- and the old one where no pair has the key.
abbrev non_empty : List ℕ → Option (List ℕ)
non_empty [] = none
non_empty (c ∷ s) = some (c ∷ s)

abbrev pub last_of : List ℕ → List (List ℕ × List ℕ) → Option (List ℕ) → Option (List ℕ)
last_of name [] old = old
last_of name ((key, value) ∷ ps) old =
    last_of name ps (if strcmp_eq key name then non_empty value else old)

abbrev pub last_values : List (List ℕ × List ℕ) → Quals → Quals
last_values ps q = record {
  product = last_of (codes "ro.product.name") ps q.product;
  model = last_of (codes "ro.product.model") ps q.model;
  device = last_of (codes "ro.product.device") ps q.device;
}

qual_overwrite-non_empty :
    (old : Option (List ℕ)) (value : List ℕ) → qual_overwrite old (some value) ≡ non_empty value
unfolding qual_overwrite
qual_overwrite-non_empty old [] = refl
qual_overwrite-non_empty old (c ∷ s) = refl

strcmp_eq-same : (a b : List ℕ) → strcmp_eq a b ≡ true → a ≡ b
unfolding strcmp_eq
strcmp_eq-same [] [] e = refl
strcmp_eq-same [] (b ∷ bs) e = let never : false ≡ true = e in cc
strcmp_eq-same (a ∷ rest) [] e = let never : false ≡ true = e in cc
strcmp_eq-same (a ∷ rest) (b ∷ bs) e = elim (Bool-cases (a == b)) [
  | inl same ↦
      let first : a ≡ b = ground arith in
      let others = strcmp_eq-same rest bs (rw same at e) in (λ j. first j ∷ others j)
  | inr other ↦ let never : false ≡ true = rw other at e in cc
]

store_last :
    (q : Quals) (key value : List ℕ) → store q key value ≡ last_values ((key, value) ∷ []) q
unfolding store
store_last q key value = elim (Bool-cases (strcmp_eq key (codes "ro.product.name"))) [
  | inl e ↦
      let same = strcmp_eq-same key (codes "ro.product.name") e in
      subst (λ k. store q k value ≡ last_values ((k, value) ∷ []) q) (sym same)
        (ap (λ v. record q { product = v }) (qual_overwrite-non_empty q.product value))
  | inr n1 ↦ elim (Bool-cases (strcmp_eq key (codes "ro.product.model"))) [
    | inl e ↦
        let same = strcmp_eq-same key (codes "ro.product.model") e in
        subst (λ k. store q k value ≡ last_values ((k, value) ∷ []) q) (sym same)
          (ap (λ v. record q { model = v }) (qual_overwrite-non_empty q.model value))
    | inr n2 ↦ elim (Bool-cases (strcmp_eq key (codes "ro.product.device"))) [
      | inl e ↦
          let same = strcmp_eq-same key (codes "ro.product.device") e in
          subst (λ k. store q k value ≡ last_values ((k, value) ∷ []) q) (sym same)
            (ap (λ v. record q { device = v }) (qual_overwrite-non_empty q.device value))
      | inr n3 ↦ rw (n1, n2, n3, store) refl
    ]
  ]
]

store_all-last_values :
    (ps : List (List ℕ × List ℕ)) (q : Quals) → store_all q ps ≡ last_values ps q
store_all-last_values [] q = refl
store_all-last_values ((key, value) ∷ ps) q =
    store_all-last_values ps (store q key value) ∙ ap (last_values ps) (store_last q key value)

state_of-named : (kind : List ℕ) → state_of kind ≡ named_state kind
unfolding state_of
state_of-named kind = elim (Bool-cases (strcmp_eq kind (codes "bootloader"))) [
  | inl e ↦ as_literal (codes "bootloader") e refl
  | inr n1 ↦ elim (Bool-cases (strcmp_eq kind (codes "device"))) [
    | inl e ↦ as_literal (codes "device") e refl
    | inr n2 ↦ elim (Bool-cases (strcmp_eq kind (codes "recovery"))) [
      | inl e ↦ as_literal (codes "recovery") e refl
      | inr n3 ↦ rw (n1, n2, n3, state_of) refl
    ]
  ]
]
  where
    as_literal :
        (name : List ℕ)
        → strcmp_eq kind name ≡ true
        → state_of name ≡ named_state name
        → state_of kind ≡ named_state kind
    as_literal name e h =
        subst (λ k. state_of k ≡ named_state k) (sym (strcmp_eq-same kind name e)) h

-- Parsing a printed banner gives the state that its kind names, host where it names none of the four,
-- and each of the three qualifiers from the last pair with its key, none where that value is empty and
-- the old one where no pair has the key, whatever follows the NUL. The kind and the serial
-- hold no colon, the keys no `=`, the keys and values no `;`, and none of them a NUL.
pub parse_banner-format_banner :
    (kind serial junk : List ℕ) (ps : List (List ℕ × List ℕ)) (q : Quals)
    → IsText kind
    → Without b':' kind
    → IsText serial
    → Without b':' serial
    → AllPlain ps
    → parse_banner (format_banner kind serial ps ++ 0 ∷ junk) q
      ≡ some (named_state kind, last_values ps q)
unfolding parse_banner parse_fields
parse_banner-format_banner kind serial junk ps q tk wk ts ws h =
    rw
      (
        append_assoc kind (b':' ∷ (serial ++ b':' ∷ format_properties ps)) (0 ∷ junk),
        strchr-found b':' kind ((serial ++ b':' ∷ format_properties ps) ++ 0 ∷ junk) tk wk
            (λ e. absurd (omega arith)),
        append_assoc serial (b':' ∷ format_properties ps) (0 ∷ junk),
        parse_banner,
      )
      (rw (fields, with_state) (λ j. some (state_of-named kind j, store_all-last_values ps q j)))
  where
    fields :
        parse_fields (serial ++ b':' ∷ (format_properties ps ++ 0 ∷ junk)) q ≡ some (store_all q ps)
    fields =
        rw
          (
            strchr-found b':' serial (format_properties ps ++ 0 ∷ junk) ts ws
                (λ e. absurd (omega arith)),
            parse_fields,
          )
          (parse_properties-eq (format_properties ps) junk q (format_properties-IsText ps h)
            ∙ ap some (fold-format_properties ps q h))
