-- ===== src/Auth/SessionCookie/Parts.antt =====
-- The parts of a cookie header, and what each does to the cookies that are read.
use kovcheg.Base.{
  ℕ, suc, ◌≡◌, refl, sym, ap, ◌∙◌, Bool, true, false, not, Option, none, some, List, [], ◌∷◌, ◌++◌,
  map, arith, length, all, all-cons, all-cons_intro, if◌then◌else◌, if-false, if-both, ltb, ◌==◌,
}
use kovcheg.Text.{Text, codes, text_eq}
use kovcheg.Text.Whitespace.{is_whitespace, trim}
use kovcheg.Text.Splitting.{
  split, join, take, drop, index_of, lacks, is_base64url, add_first, split-lacks, split-append,
  index_of-append, take-length, drop-length,
}
use kovcheg.Text.Trimming.{trim-space, is_solid}
use kovcheg.Dict.{Dict, get, get-set, get-set_self}
use kovcheg.Auth.SessionCookie.{
  SessionCookieOptions, part_name, add_cookie, read_part_at, read_part, read_parts, cookie_name,
}

-- The parts that a header of pairs is split into.
unfoldable pub spaced : List Text → List Text
spaced pairs = map (λ pair. 32 ∷ pair) pairs

pub spaced-append : (xs ys : List Text) → spaced (xs ++ ys) ≡ spaced xs ++ spaced ys
unfolding spaced
spaced-append [] ys = refl
spaced-append (x ∷ xs) ys = ap (λ parts. (32 ∷ x) ∷ parts) (spaced-append xs ys)

pub split-join :
    (pair : Text) (pairs : List Text)
    → all (lacks b';') (pair ∷ pairs) ≡ true
    → split b';' (join (codes "; ") (pair ∷ pairs)) ≡ pair ∷ spaced pairs
unfolding join spaced split
split-join pair [] h = split-lacks b';' pair (all-cons (lacks b';') pair [] h).0
split-join pair (next ∷ pairs) h =
    let (first, others) = all-cons (lacks b';') pair (next ∷ pairs) h in
    split-append b';' pair (32 ∷ join (codes "; ") (next ∷ pairs)) first
    ∙ ap (λ parts. pair ∷ add_first 32 parts) (split-join next pairs others)

-- The name in front of a separator.
abbrev name_at : Text → Option ℕ → Text
name_at part none = []
name_at part (some separator) = trim (take separator part)

abbrev next_index : Option ℕ → Option ℕ
next_index none = none
next_index (some i) = some (suc i)

name_at-space : (part : Text) (o : Option ℕ) → name_at (32 ∷ part) (next_index o) ≡ name_at part o
name_at-space part none = refl
name_at-space part (some i) = trim-space (take i part)

part_name-at : (part : Text) → part_name part ≡ name_at part (index_of b'=' part)
part_name-at part = ground arith

index_of-space : (part : Text) → index_of b'=' (32 ∷ part) ≡ next_index (index_of b'=' part)
unfolding index_of
index_of-space part = ground arith

pub part_name-space : (part : Text) → part_name (32 ∷ part) ≡ part_name part
part_name-space part =
    part_name-at (32 ∷ part)
    ∙ ap (name_at (32 ∷ part)) (index_of-space part)
    ∙ name_at-space part (index_of b'=' part)
    ∙ sym (part_name-at part)

get-add_cookie :
    (name key value : Text) (cookies : Dict Text)
    → not (text_eq key name) ≡ true
    → get name (add_cookie key value cookies) ≡ get name cookies
unfolding add_cookie
get-add_cookie name key value cookies h = ground (arith, get-set name key value cookies)

get-add_cookie-some :
    (name value key new : Text) (cookies : Dict Text)
    → get name cookies ≡ some value
    → get name (add_cookie key new cookies) ≡ some value
unfolding add_cookie
get-add_cookie-some name value key new cookies h = ground (arith, get-set name key new cookies)

get-add_cookie-new :
    (name value : Text) (cookies : Dict Text)
    → get name cookies ≡ none
    → ltb 0 (length name) ≡ true
    → get name (add_cookie name value cookies) ≡ some value
unfolding add_cookie
get-add_cookie-new name value cookies h k = ground (arith, get-set_self name value cookies)

get-read_part_at :
    (name part : Text) (cookies : Dict Text) (o : Option ℕ)
    → not (text_eq (part_name part) name) ≡ true
    → get name (read_part_at part cookies o) ≡ get name cookies
get-read_part_at name part cookies none h = refl
get-read_part_at name part cookies (some s) h =
    if-both (λ d. get name d ≡ get name cookies) (ltb s 1) refl
      (get-add_cookie name (part_name part) (trim (drop (suc s) part)) cookies h)

get-read_part_at-some :
    (name part value : Text) (cookies : Dict Text) (o : Option ℕ)
    → get name cookies ≡ some value
    → get name (read_part_at part cookies o) ≡ some value
get-read_part_at-some name part value cookies none h = h
get-read_part_at-some name part value cookies (some s) h =
    if-both (λ d. get name d ≡ some value) (ltb s 1) h
      (get-add_cookie-some name value (part_name part) (trim (drop (suc s) part)) cookies h)

-- A part with another name changes nothing under this one.
get-read_part :
    (name part : Text) (cookies : Dict Text)
    → not (text_eq (part_name part) name) ≡ true
    → get name (read_part part cookies) ≡ get name cookies
unfolding read_part
get-read_part name part cookies h = get-read_part_at name part cookies (index_of b'=' part) h

-- A value that is there stays.
get-read_part-some :
    (name part value : Text) (cookies : Dict Text)
    → get name cookies ≡ some value
    → get name (read_part part cookies) ≡ some value
unfolding read_part
get-read_part-some name part value cookies h =
    get-read_part_at-some name part value cookies (index_of b'=' part) h

pub get-read_parts-some :
    (name value : Text) (parts : List Text) (cookies : Dict Text)
    → get name cookies ≡ some value
    → get name (read_parts parts cookies) ≡ some value
unfolding read_parts
get-read_parts-some name value [] cookies h = h
get-read_parts-some name value (part ∷ parts) cookies h =
    get-read_parts-some name value parts (read_part part cookies)
      (get-read_part-some name part value cookies h)

pub base64url-solid : (u : ℕ) → is_base64url u ≡ true → is_solid u ≡ true
unfolding is_base64url is_whitespace
base64url-solid u h = ground arith

pub base64url-plain :
    (u : ℕ) → is_base64url u ≡ true → (not (u == b';') ≡ true) × (not (u == b'=') ≡ true)
unfolding is_base64url
base64url-plain u h = ground arith

pub cookie_name-base64url :
    (options : SessionCookieOptions) → all is_base64url (cookie_name options) ≡ true
unfolding is_base64url
cookie_name-base64url options =
    elim options.secure
      as (λ b.
        all is_base64url (if b then codes "__Host-kovcheg_session" else codes "kovcheg_session")
        ≡ true) [ true ↦ refl | false ↦ refl ]

read_parts-append :
    (xs ys : List Text) (cookies : Dict Text)
    → read_parts (xs ++ ys) cookies ≡ read_parts ys (read_parts xs cookies)
unfolding read_parts
read_parts-append [] ys cookies = refl
read_parts-append (x ∷ xs) ys cookies = read_parts-append xs ys (read_part x cookies)

abbrev pub is_other_part : Text → Text → Bool
is_other_part name part = not (text_eq (part_name part) name)

get-read_parts-others :
    (name : Text) (parts : List Text) (cookies : Dict Text)
    → all (is_other_part name) parts ≡ true
    → get name (read_parts parts cookies) ≡ get name cookies
unfolding read_parts
get-read_parts-others name [] cookies h = refl
get-read_parts-others name (part ∷ parts) cookies h =
    let (first, others) = all-cons (is_other_part name) part parts h in
    get-read_parts-others name parts (read_part part cookies) others
    ∙ get-read_part name part cookies first

pub spaced-others :
    (name : Text) (pairs : List Text)
    → all (is_other_part name) pairs ≡ true
    → all (is_other_part name) (spaced pairs) ≡ true
unfolding spaced
spaced-others name [] h = refl
spaced-others name (pair ∷ pairs) h =
    let (first, others) = all-cons (is_other_part name) pair pairs h in
    all-cons_intro (is_other_part name) (32 ∷ pair) (spaced pairs)
      (ap (λ n. not (text_eq n name)) (part_name-space pair) ∙ first)
      (spaced-others name pairs others)

-- The part of the cookie itself, with the name as it stands there.
pub read_part-own :
    (raw name value : Text) (cookies : Dict Text)
    → lacks b'=' raw ≡ true
    → trim raw ≡ name
    → ltb (length raw) 1 ≡ false
    → trim value ≡ value
    → read_part (raw ++ (b'=' ∷ value)) cookies ≡ add_cookie name value cookies
unfolding read_part
read_part-own raw name value cookies h n l v =
    let found = index_of-append b'=' raw value h in
    let named : part_name (raw ++ (b'=' ∷ value)) ≡ name =
      part_name-at (raw ++ (b'=' ∷ value))
      ∙ ap (name_at (raw ++ (b'=' ∷ value))) found
      ∙ ap trim (take-length raw (b'=' ∷ value))
      ∙ n in
    ap (read_part_at (raw ++ (b'=' ∷ value)) cookies) found
    ∙ if-false (ltb (length raw) 1) cookies
        (add_cookie (part_name (raw ++ (b'=' ∷ value)))
          (trim (drop (suc (length raw)) (raw ++ (b'=' ∷ value)))) cookies)
        l
    ∙ ap (λ key. add_cookie key (trim (drop (suc (length raw)) (raw ++ (b'=' ∷ value)))) cookies)
        named
    ∙ ap (λ rest. add_cookie name (trim rest) cookies) (drop-length raw value b'=')
    ∙ ap (λ rest. add_cookie name rest cookies) v

pub get-read_parts-found :
    (name value own : Text) (before after : List Text)
    → all (is_other_part name) before ≡ true
    → ((cookies : Dict Text) → read_part own cookies ≡ add_cookie name value cookies)
    → ltb 0 (length name) ≡ true
    → get name (read_parts (before ++ (own ∷ after)) []) ≡ some value
unfolding read_parts get
get-read_parts-found name value own before after h o l =
    let start = read_parts before [] in
    let absent = get-read_parts-others name before [] h in
    let there : get name (read_part own start) ≡ some value =
      ap (get name) (o start) ∙ get-add_cookie-new name value start absent l in
    ap (get name) (read_parts-append before (own ∷ after) [])
    ∙ get-read_parts-some name value after (read_part own start) there
