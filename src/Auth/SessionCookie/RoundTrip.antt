-- ===== src/Auth/SessionCookie/RoundTrip.antt =====
-- A token that was issued is read back from the header that a browser sends.
use kovcheg.Base.{
  ℕ, suc, ◌≡◌, refl, ap, ◌∙◌, Bool, true, false, not, none, some, List, [], ◌∷◌, ◌++◌, ok, err,
  length, all, all-cons, &&-both, all-cons_intro, all-append, all-weaken, if-true, if-both, ltb,
  ◌==◌, ◌&&◌,
}
use kovcheg.Text.{Text, codes}
use kovcheg.Text.Whitespace.{trim}
use kovcheg.Text.Splitting.{split, join, lacks, is_base64url, split-append, matches_class-all}
use kovcheg.Text.Trimming.{trim-solid, trim-space, is_solid}
use kovcheg.Dict.{Dict, get}
use kovcheg.Auth.Service.Policy.{AuthErrorCode}
use kovcheg.Auth.SessionCookie.{
  valid_or_null, SessionCookieOptions, add_cookie, read_part, read_parts, parse_cookie_header,
  is_session_token, cookie_name, max_age_seconds, serialize, issue, read,
}
use kovcheg.Auth.SessionCookie.Parts.{
  spaced, spaced-append, split-join, base64url-solid, base64url-plain, cookie_name-base64url,
  spaced-others, read_part-own, get-read_parts-found, is_other_part,
}

-- What a browser keeps of a `Set-Cookie` header: the text in front of the first semicolon.
unfoldable pub kept_pair : Text → Text
kept_pair set_cookie = elim (split b';' set_cookie) [ [] ↦ [] | pair ∷ attributes ↦ pair ]

-- A pair of another cookie: it has no semicolon and another name.
abbrev pub is_other_pair : SessionCookieOptions → Text → Bool
is_other_pair options pair = lacks b';' pair && is_other_part (cookie_name options) pair

kept_pair-join :
    (pair next : Text) (rest : List Text)
    → lacks b';' pair ≡ true
    → kept_pair (join (codes "; ") (pair ∷ next ∷ rest)) ≡ pair
unfolding kept_pair join
kept_pair-join pair next rest h =
    ap (λ parts. elim parts as (λ _. Text) [ [] ↦ [] | first ∷ others ↦ first ])
      (split-append b';' pair (32 ∷ join (codes "; ") (next ∷ rest)) h)

lacks-equals : (t : Text) → all is_base64url t ≡ true → lacks b'=' t ≡ true
lacks-equals t h =
    all-weaken is_base64url (λ u. not (u == b'=')) (λ u k. (base64url-plain u k).1) t h

lacks-semicolon : (t : Text) → all is_base64url t ≡ true → lacks b';' t ≡ true
lacks-semicolon t h =
    all-weaken is_base64url (λ u. not (u == b';')) (λ u k. (base64url-plain u k).0) t h

trim-base64url : (t : Text) → all is_base64url t ≡ true → trim t ≡ t
trim-base64url t h = trim-solid t (all-weaken is_base64url is_solid base64url-solid t h)

module _ (options : SessionCookieOptions) where
  abbrev own_pair : Text → Text
  own_pair token = cookie_name options ++ (b'=' ∷ token)

  own_pair-lacks :
      (token : Text) → all is_base64url token ≡ true → lacks b';' (own_pair token) ≡ true
  own_pair-lacks token t =
      all-append (λ u. not (u == b';')) (cookie_name options) (b'=' ∷ token)
        (lacks-semicolon (cookie_name options) (cookie_name-base64url options))
        (lacks-semicolon token t)

  cookie_name-some : ltb 0 (length (cookie_name options)) ≡ true
  cookie_name-some = if-both (λ name. ltb 0 (length name) ≡ true) options.secure refl refl

  cookie_name-long : ltb (length (cookie_name options)) 1 ≡ false
  cookie_name-long = if-both (λ name. ltb (length name) 1 ≡ false) options.secure refl refl

  kept_pair-serialize :
      (value : Text) (age : ℕ)
      → all is_base64url value ≡ true
      → kept_pair (serialize options value age) ≡ cookie_name options ++ (b'=' ∷ value)
  unfolding serialize
  kept_pair-serialize value age h = kept_pair-join (own_pair value) _ _ (own_pair-lacks value h)

  -- The cookie's part of the header, alone in front or after a space.
  own_first :
      (token : Text) (cookies : Dict Text)
      → all is_base64url token ≡ true
      → read_part (own_pair token) cookies ≡ add_cookie (cookie_name options) token cookies
  own_first token cookies t =
      let name = cookie_name options in
      let plain = cookie_name-base64url options in
      read_part-own name name token cookies (lacks-equals name plain) (trim-base64url name plain)
        cookie_name-long (trim-base64url token t)

  own_later :
      (token : Text) (cookies : Dict Text)
      → all is_base64url token ≡ true
      → read_part (32 ∷ own_pair token) cookies ≡ add_cookie (cookie_name options) token cookies
  own_later token cookies t =
      let name = cookie_name options in
      let plain = cookie_name-base64url options in
      read_part-own (32 ∷ name) name token cookies (lacks-equals name plain)
        (trim-space name ∙ trim-base64url name plain)
        (if-both (λ n. ltb (suc (length n)) 1 ≡ false) options.secure refl refl)
        (trim-base64url token t)

  pairs-others :
      (pairs : List Text)
      → all (is_other_pair options) pairs ≡ true
      → all (is_other_part (cookie_name options)) pairs ≡ true
  pairs-others pairs h =
      all-weaken (is_other_pair options) (is_other_part (cookie_name options))
        (λ p k. (&&-both (lacks b';' p) (is_other_part (cookie_name options) p) k).1) pairs h

  pairs-single :
      (pairs : List Text) → all (is_other_pair options) pairs ≡ true → all (lacks b';') pairs ≡ true
  pairs-single pairs h =
      all-weaken (is_other_pair options) (lacks b';')
        (λ p k. (&&-both (lacks b';' p) (is_other_part (cookie_name options) p) k).0) pairs h

  header_cookie :
      (token : Text) (before after : List Text)
      → all is_base64url token ≡ true
      → all (is_other_pair options) before ≡ true
      → all (lacks b';') after ≡ true
      → get
          (cookie_name options)
          (parse_cookie_header (some (join (codes "; ") (before ++ (own_pair token ∷ after)))))
        ≡ some token
  unfolding parse_cookie_header spaced
  header_cookie token [] after t b a =
      let name = cookie_name options in
      ap (λ parts. get name (read_parts parts []))
        (split-join (own_pair token) after
          (all-cons_intro (lacks b';') (own_pair token) after (own_pair-lacks token t) a))
      ∙ get-read_parts-found name token (own_pair token) [] (spaced after) refl
          (λ cookies. own_first token cookies t) cookie_name-some
  header_cookie token (pair ∷ before) after t b a =
      let name = cookie_name options in
      let others = all-cons (is_other_part name) pair before (pairs-others (pair ∷ before) b) in
      let single : all (lacks b';') ((pair ∷ before) ++ (own_pair token ∷ after)) ≡ true =
        all-append (lacks b';') (pair ∷ before) (own_pair token ∷ after)
          (pairs-single (pair ∷ before) b)
          (all-cons_intro (lacks b';') (own_pair token) after (own_pair-lacks token t) a) in
      ap (λ parts. get name (read_parts parts []))
        (split-join pair (before ++ (own_pair token ∷ after)) single
          ∙ ap (λ parts. pair ∷ parts) (spaced-append before (own_pair token ∷ after)))
      ∙ get-read_parts-found name token (32 ∷ own_pair token) (pair ∷ spaced before) (spaced after)
          (all-cons_intro (is_other_part name) pair (spaced before) others.0
            (spaced-others name before others.1))
          (λ cookies. own_later token cookies t) cookie_name-some

  -- A token of the right shape is issued. A browser that sends the cookie back, with any other
  -- cookies before it and any pairs after it, has the token read from its header.
  pub read-issue :
      (token : Text) (before after : List Text)
      → is_session_token token ≡ true
      → all (is_other_pair options) before ≡ true
      → all (lacks b';') after ≡ true
      → (set_cookie : Text) × (issue options token ≡ ok set_cookie)
        × (read options (some (join (codes "; ") (before ++ (kept_pair set_cookie ∷ after))))
            ≡ some token)
  unfolding issue read
  read-issue token before after t b a =
      let name = cookie_name options in
      let plain = matches_class-all is_base64url 32 512 token t in
      let set_cookie = serialize options token (max_age_seconds options) in
      let header = some (join (codes "; ") (before ++ (kept_pair set_cookie ∷ after))) in
      let kept : get name (parse_cookie_header header) ≡ some token =
        ap
          (λ pair.
            get name (parse_cookie_header (some (join (codes "; ") (before ++ (pair ∷ after))))))
          (kept_pair-serialize token (max_age_seconds options) plain)
        ∙ header_cookie token before after plain b a in
      (
        set_cookie,
        if-true (is_session_token token) (ok set_cookie) (err AuthErrorCode.invalid_input) t,
        ap valid_or_null kept ∙ if-true (is_session_token token) (some token) none t,
      )
