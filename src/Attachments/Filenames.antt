-- ===== src/Attachments/Filenames.antt =====
-- packages/bridge/src/core/attachments.ts: which filenames are stored.
use pi_mob.Prelude.{
  ℕ, suc, ◌≤◌, ◌≡◌, refl, ap, subst, true, false, not, ◌||◌, Option, none, some, [], ◌∷◌, map, ltb,
  ◌==◌, keep, every, length, length-keep-le, Result, ok, err, arith, Bool-cases, inl, inr,
}
use pi_mob.Cursor.{text_eq}
use pi_mob.Attachments.Defs.{Text, AttachmentErrorCode, bad_request}
use pi_mob.Attachments.Names.{
  trim, is_control, is_slash, no_slash, sanitised, safe_name, one_dot, two_dots, normalise_filename,
}

-- A name that cannot leave its directory.
pub record IsSafeName (max_length : ℕ) (name : Text) : Type 0 where
  pub nonempty : 1 ≤ length name
  pub short : length name ≤ max_length
  pub plain : every (λ c. not (is_control c || is_slash c)) name ≡ true
  pub no_dot : text_eq name one_dot ≡ false
  pub no_dots : text_eq name two_dots ≡ false

-- A file's stored name, if it has one.
abbrev pub StoresSafely : ℕ → Option Text → Type 0
StoresSafely max_length none = Unit
StoresSafely max_length (some name) = IsSafeName max_length name

no_slash_plain :
    (c : ℕ) → is_control c ≡ false → (is_control (no_slash c) || is_slash (no_slash c)) ≡ false
no_slash_plain c h = ground (arith, h)

sanitised_plain : (t : Text) → every (λ c. not (is_control c || is_slash c)) (sanitised t) ≡ true
sanitised_plain [] = refl
sanitised_plain (c ∷ cs) = elim (Bool-cases (is_control c)) [
  | inl e ↦ rw e (sanitised_plain cs)
  | inr e ↦ rw (e, no_slash_plain c e) (sanitised_plain cs)
]

length-map : (f : ℕ → ℕ) (t : Text) → length (map f t) ≡ length t
length-map f [] = refl
length-map f (c ∷ cs) = ap (λ (n : ℕ). suc n) (length-map f cs)

ok_inj :
    {a b : Option Text} → ◌≡◌ {A = Result AttachmentErrorCode (Option Text)} (ok a) (ok b) → a ≡ b
ok_inj h = cc

safe_name-StoresSafely :
    (max_length : ℕ) (t : Text) (name : Option Text)
    → length (sanitised t) ≤ max_length
    → safe_name (sanitised t) ≡ ok name
    → StoresSafely max_length name
safe_name-StoresSafely max_length t name short e = elim (Bool-cases (length (sanitised t) == 0)) [
  | inl z ↦ let bad : err bad_request ≡ ok name = rw z at e in cc
  | inr z ↦ elim (Bool-cases (text_eq (sanitised t) one_dot || text_eq (sanitised t) two_dots)) [
    | inl d ↦ let bad : err bad_request ≡ ok name = rw (z, d) at e in cc
    | inr d ↦
        let same : ok (some (sanitised t)) ≡ ok name = rw (z, d) at e in
        subst (StoresSafely max_length) (ok_inj same) (record {
          nonempty = ground (arith, z);
          short = short;
          plain = sanitised_plain t;
          no_dot = ground (arith, d);
          no_dots = ground (arith, d);
        })
  ]
]

-- Where a filename is taken, the name that is stored is not empty, within the limit, without control
-- characters and slashes of both kinds, and neither a dot nor two dots; else none is stored.
pub normalise_filename-StoresSafely :
    (value : Option Text) (max_length : ℕ) (name : Option Text)
    → normalise_filename value max_length ≡ ok name
    → StoresSafely max_length name
unfolding normalise_filename
normalise_filename-StoresSafely none max_length name e =
    subst (StoresSafely max_length) (ok_inj e) tt
normalise_filename-StoresSafely (some value) max_length name e =
    elim (Bool-cases (length (trim value) == 0)) [
      | inl z ↦
          let same : ok none ≡ ok name = rw z at e in
          subst (StoresSafely max_length) (ok_inj same) tt
      | inr z ↦ elim (Bool-cases (ltb max_length (length (trim value)))) [
        | inl l ↦ let bad : err bad_request ≡ ok name = rw (z, l) at e in cc
        | inr l ↦
            let kept = length-keep-le (λ c. not (is_control c)) (trim value) in
            let mapped = length-map no_slash (keep (λ c. not (is_control c)) (trim value)) in
            let within : length (trim value) ≤ max_length = ground (arith, l) in
            safe_name-StoresSafely max_length (trim value) name
              (omega (arith, kept, mapped, within)) (rw (z, l) at e)
      ]
    ]
