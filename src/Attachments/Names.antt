-- ===== src/Attachments/Names.antt =====
-- packages/bridge/src/core/attachments.ts: the checks and the normal forms of texts. A text is the list
-- of its UTF-16 code units.
use pi_mob.Prelude.{
  ℕ, zero, suc, ◌+◌, Bool, true, false, not, ◌&&◌, ◌||◌, Option, none, some, [], ◌∷◌, map, reverse,
  ltb, leb, ◌==◌, if◌then◌else◌, keep, every, length, take, drop, Result, ok, err,
}
use pi_mob.Cursor.{text_eq}
use pi_mob.Attachments.Defs.{Text, AttachmentErrorCode, bad_request}

-- The characters that `trim` removes.
abbrev pub is_space : ℕ → Bool
is_space c =
    (leb 9 c && leb c 13)
    || ((c == 32)
        || ((c == 160)
            || ((c == 5760)
                || ((leb 8192 c && leb c 8202)
                    || ((c == 8232)
                        || ((c == 8233)
                            || ((c == 8239)
                                || ((c == 8287) || ((c == 12288) || (c == 65279))))))))))

abbrev drop_spaces : Text → Text
drop_spaces [] = []
drop_spaces (c ∷ cs) = if is_space c then drop_spaces cs else c ∷ cs

-- `trim`.
unfoldable pub trim : Text → Text
trim t = reverse (drop_spaces (reverse (drop_spaces t)))

-- `toLowerCase`, on ASCII and the Kelvin sign. No other capital becomes a character of a token or of a hash;
-- one within a quoted value is left as it is here.
abbrev lower : ℕ → ℕ
lower c = if leb 65 c && leb c 90 then c + 32 else if c == 8490 then 107 else c

abbrev is_digit : ℕ → Bool
is_digit c = leb 48 c && leb c 57

abbrev is_small : ℕ → Bool
is_small c = leb 97 c && leb c 122

-- `[a-z0-9!#$&^_.+-]`
abbrev is_token_char : ℕ → Bool
is_token_char c =
    is_small c
    || (is_digit c
        || ((c == 33)
            || ((c == 35)
                || ((c == 36)
                    || ((c == 38)
                        || ((c == 94)
                            || ((c == 95) || ((c == 46) || ((c == 43) || (c == 45))))))))))

abbrev is_blank : ℕ → Bool
is_blank c = (c == 32) || (c == 9)

-- What follows the longest prefix of characters that pass the test.
abbrev skip : (ℕ → Bool) → Text → Text
skip test [] = []
skip test (c ∷ cs) = if test c then skip test cs else c ∷ cs

-- What follows a token, which has one character at least.
abbrev after_token : Text → Option Text
after_token [] = none
after_token (c ∷ cs) = if is_token_char c then some (skip is_token_char cs) else none

-- What follows one character.
abbrev after_char : ℕ → Text → Option Text
after_char d [] = none
after_char d (c ∷ cs) = if c == d then some cs else none

infixl 5 ◌>>=◌
abbrev ◌>>=◌ : {A B : Type 0} → Option A → (A → Option B) → Option B
none >>= f = none
some a >>= f = f a

-- A quoted value from its opening quote on.
abbrev after_quoted : Text → Option Text
after_quoted t = after_char 34 t >>= λ u. after_char 34 (skip (λ c. not (c == 34)) u)

abbrev after_value : Text → Option Text
after_value [] = none
after_value (c ∷ cs) = if c == 34 then after_quoted (c ∷ cs) else after_token (c ∷ cs)

-- `[ \t]*;[ \t]*token=(token|"[^"]*")`
abbrev after_parameter : Text → Option Text
after_parameter t = after_char 59 (skip is_blank t) >>= λ u.
    after_token (skip is_blank u) >>= λ v. after_char 61 v >>= after_value

-- Parameters up to the end of the text. Each takes a character, so that the text's length is fuel enough.
unfoldable pub is_parameters : ℕ → Text → Bool
is_parameters n [] = true
is_parameters zero (c ∷ cs) = false
is_parameters (suc n) (c ∷ cs) = elim (after_parameter (c ∷ cs)) [
  | none ↦ false
  | some rest ↦ is_parameters n rest
]

-- The regular expression of a media type.
unfoldable pub is_media_type : Text → Bool
is_media_type t = elim (after_token t >>= λ u. after_char 47 u >>= after_token) [
  | none ↦ false
  | some rest ↦ is_parameters (length rest) rest
]

abbrev max_default : ℕ
max_default = 200

-- `normaliseContentType`.
unfoldable pub normalise_content_type : Text → Result AttachmentErrorCode Text
normalise_content_type value =
    let trimmed = map lower (trim value) in
    if length trimmed == 0
    then err bad_request
    else if ltb max_default (length trimmed)
    then err bad_request
    else if not (is_media_type trimmed)
    then err bad_request
    else ok trimmed

abbrev pub is_control : ℕ → Bool
is_control c = leb c 31 || (c == 127)

abbrev pub is_slash : ℕ → Bool
is_slash c = (c == 92) || (c == 47)

abbrev pub no_slash : ℕ → ℕ
no_slash c = if is_slash c then 95 else c

-- The characters that stay, with `_` for a slash.
abbrev pub sanitised : Text → Text
sanitised t = map no_slash (keep (λ c. not (is_control c)) t)

abbrev pub one_dot : Text
one_dot = 46 ∷ []

abbrev pub two_dots : Text
two_dots = 46 ∷ 46 ∷ []

abbrev pub safe_name : Text → Result AttachmentErrorCode (Option Text)
safe_name safe =
    if length safe == 0
    then err bad_request
    else if text_eq safe one_dot || text_eq safe two_dots
    then err bad_request
    else ok (some safe)

-- `normaliseFilename`.
unfoldable pub normalise_filename : Option Text → ℕ → Result AttachmentErrorCode (Option Text)
normalise_filename none max_length = ok none
normalise_filename (some value) max_length =
    let trimmed = trim value in
    if length trimmed == 0
    then ok none
    else if ltb max_length (length trimmed)
    then err bad_request
    else safe_name (sanitised trimmed)

abbrev pub is_hex : ℕ → Bool
is_hex c = is_digit c || (leb 97 c && leb c 102)

-- `HEX_SHA256`.
abbrev pub is_hex_sha256 : Text → Bool
is_hex_sha256 t = length t == 64 && every is_hex t

-- `normaliseSha256`.
unfoldable pub normalise_sha256 : Option Text → Result AttachmentErrorCode (Option Text)
normalise_sha256 none = ok none
normalise_sha256 (some value) =
    let trimmed = map lower (trim value) in
    if is_hex_sha256 trimmed then ok (some trimmed) else err bad_request

abbrev is_group : ℕ → Text → Bool
is_group n t = length t == n && every is_hex t

abbrev char_at : ℕ → (ℕ → Bool) → Text → Bool
char_at n test t = elim (drop n t) [ [] ↦ false | c ∷ cs ↦ test c ]

abbrev is_dash : ℕ → Bool
is_dash c = c == 45

-- `isPublicId`: a version 4 UUID in lower case.
unfoldable pub is_public_id : Text → Bool
is_public_id t =
    is_group 8 (take 8 t)
    && (char_at 8 is_dash t
        && (is_group 4 (take 4 (drop 9 t))
            && (char_at 13 is_dash t
                && (char_at 14 (λ c. c == 52) t
                    && (is_group 3 (take 3 (drop 15 t))
                        && (char_at 18 is_dash t
                            && (char_at 19
                                  (λ c. (c == 56) || ((c == 57) || ((c == 97) || (c == 98)))) t
                                && (is_group 3 (take 3 (drop 20 t))
                                    && (char_at 23 is_dash t && is_group 12 (drop 24 t))))))))))
