-- ===== src/Mavis/Child.antt =====
-- docker/tac_plus-ng/mavis_child.py. Standard input and output are lists of lines, each with its line
-- feed; the backend is a parameter that answers a POST of a payload to a path.
pub mod Verdicts
pub mod Acks
pub mod Loop
pub mod Wire
use tacacs_web.Prelude.{
  ℕ, zero, suc, Bool, true, false, ◌||◌, Option, none, some, List, [], ◌∷◌, ◌++◌, map, Str, str,
  str_eq, replace, rstrip_of, is_empty, sort_by, ◌==◌, decimal, if◌then◌else◌, or_else,
}
use tacacs_web.Prelude.Int.{ℤ, pos, int_eq, int_le, show_int, parse_int}
use tacacs_web.Result.{Result, ok, err, type_error}

-- A `dict[int, str]` in the order of insertion.
abbrev pub Av : Type 0
Av = List (ℤ × Str)

unfoldable pub av_get : ℤ → Av → Option Str
av_get k [] = none
av_get k ((j, v) ∷ av) = let rest = av_get k av in if int_eq j k then some v else rest

unfoldable pub av_set : ℤ → Str → Av → Av
av_set k v [] = (k, v) ∷ []
av_set k v ((j, w) ∷ av) =
    let rest = av_set k v av in if int_eq j k then (j, v) ∷ av else (j, w) ∷ rest

abbrev pub av_user : ℤ
av_user = pos 4

abbrev pub av_result : ℤ
av_result = pos 6

abbrev pub av_password : ℤ
av_password = pos 8

abbrev pub av_serverip : ℤ
av_serverip = pos 25

abbrev pub av_tacprofile : ℤ
av_tacprofile = pos 48

abbrev pub av_tactype : ℤ
av_tactype = pos 49

abbrev pub result_ok : Str
result_ok = str "ACK"

abbrev pub result_fail : Str
result_fail = str "NAK"

abbrev pub result_notfound : Str
result_notfound = str "NFD"

abbrev pub result_error : Str
result_error = str "ERR"

-- `line.partition(" ")` without the separator.
unfoldable pub partition : ℕ → Str → Str × Str
partition sep [] = ([], [])
partition sep (c ∷ s) =
    let rest = partition sep s in if c == sep then ([], s) else (c ∷ rest.0, rest.1)

-- `line.rstrip("\n")`
abbrev pub chomp : Str → Str
chomp line = rstrip_of (λ c. c == 10) line

store_pair : Option ℤ → Str → Av → Av
unfolding av_set
store_pair none value req = req
store_pair (some idx) value req = av_set idx value req

unfoldable pub take_line : Str → Av → Av
unfolding partition store_pair
take_line line req =
    let (idx_str, value) = partition b' ' line in store_pair (parse_int idx_str) value req

-- The request and the lines behind it; `none` at the end of the input.
unfoldable pub read_request : Av → List Str → Option (Av × List Str)
unfolding take_line
read_request req [] = none
read_request req (raw ∷ lines) =
    let line = chomp raw in
    let more = read_request (take_line line req) lines in
    if str_eq line (str "=") then some (req, lines) else more

unfoldable pub av_line : ℤ × Str → Str
av_line (idx, value) = show_int idx ++ b' ' ∷ (replace 10 (13 ∷ []) value ++ 10 ∷ [])

unfoldable pub write_response : Av → List Str
unfolding av_line
write_response av = map av_line (sort_by (λ (a b : ℤ × Str). int_le a.0 b.0) av) ++ str "=0\n" ∷ []

-- A value of a decoded JSON object. A list or an object in it cannot be looked up in a set.
pub data Leaf : Type 0 where
  text : Str → Leaf
  number_or_null : Leaf
  unhashable : Leaf

pub data HttpReply : Type 0 where
  http_error : ℕ → HttpReply
  unreachable : Str → HttpReply
  json_object : List (Str × Leaf) → HttpReply
  json_other : HttpReply

pub record PostResult : Type 0 where
  pub result : Str
  pub reason : Option Str
  pub profile : Option Str

-- `response.get(key)`, where a missing key gives `None`.
unfoldable pub field_of : Str → List (Str × Leaf) → Leaf
field_of key [] = number_or_null
field_of key ((k, v) ∷ fields) = let rest = field_of key fields in if str_eq k key then v else rest

abbrev text_of : Leaf → Option Str
text_of (text s) = some s
text_of number_or_null = none
text_of unhashable = none

abbrev pub is_verdict : Str → Bool
is_verdict s =
    str_eq s result_ok || str_eq s result_fail || str_eq s result_notfound || str_eq s result_error

abbrev failure : Str → PostResult
failure reason = record { result = result_error; reason = some reason; profile = none }

check_result : Leaf → List (Str × Leaf) → Result PostResult
check_result unhashable fields = err type_error
check_result number_or_null fields = ok (failure (str "backend_bad_response"))
check_result (text s) fields =
    if is_verdict s
    then ok (record {
      result = s;
      reason = text_of (field_of (str "reason") fields);
      profile = text_of (field_of (str "profile") fields);
    })
    else ok (failure (str "backend_bad_response"))

-- `_post_json` behind the request. An answer that is no JSON object has no `get`.
unfoldable pub read_reply : HttpReply → Result PostResult
unfolding check_result field_of
read_reply (http_error code) = ok (failure (str "backend_http_" ++ decimal code))
read_reply (unreachable name) = ok (failure (str "backend_unreachable: " ++ name))
read_reply (json_object fields) = check_result (field_of (str "result") fields) fields
read_reply json_other = err type_error

abbrev pub Backend : Type 0
Backend = Str → List (Str × Str) → HttpReply

abbrev pub auth_payload : Str → Str → Str → List (Str × Str)
auth_payload username password nas_ip =
    (str "username", username)
    ∷ (str "password", password)
    ∷ (if is_empty nas_ip then [] else (str "nas_ip", nas_ip) ∷ [])

module _ (backend : Backend) where
  unfoldable pub call_backend_auth : Str → Str → Str → Result PostResult
  unfolding read_reply
  call_backend_auth username password nas_ip =
      read_reply (backend (str "/internal/mavis/auth") (auth_payload username password nas_ip))

  unfoldable pub call_backend_info : Str → Str → Result PostResult
  unfolding read_reply
  call_backend_info username nas_ip = read_reply (
      backend (str "/internal/mavis/info")
        ((str "username", username) ∷ (str "nas_ip", nas_ip) ∷ []))

  -- `if result == RESULT_OK and profile is not None: req[AV_TACPROFILE] = profile`
  pub attach_profile : PostResult → Av → Av
  unfolding av_set
  attach_profile r req = elim r.profile [
    | none ↦ req
    | some p ↦ if str_eq r.result result_ok then av_set av_tacprofile p req else req
  ]

  attach_info : Result PostResult → Av → Result Av
  unfolding attach_profile
  attach_info (ok r) req = ok (attach_profile r req)
  attach_info (err e) req = err e

  after_auth : Str → Str → Av → Result PostResult → Result Av
  unfolding attach_info call_backend_info
  after_auth username nas_ip req (err e) = err e
  after_auth username nas_ip req (ok r) =
      let req' = av_set av_result r.result req in
      if str_eq r.result result_ok
      then (if is_empty nas_ip
          then ok req'
          else attach_info (call_backend_info username nas_ip) req')
      else ok req'

  after_info : Av → Result PostResult → Result Av
  unfolding attach_profile
  after_info req (err e) = err e
  after_info req (ok r) = ok (attach_profile r (av_set av_result r.result req))

  pub handle_auth : Av → Result Av
  unfolding after_auth call_backend_auth
  handle_auth req =
      let username = or_else (av_get av_user req) [] in
      let nas_ip = or_else (av_get av_serverip req) [] in
      after_auth username nas_ip req
        (call_backend_auth username (or_else (av_get av_password req) []) nas_ip)

  pub handle_info : Av → Result Av
  unfolding after_info call_backend_info
  handle_info req =
      after_info req
        (call_backend_info (or_else (av_get av_user req) []) (or_else (av_get av_serverip req) []))

  -- The answer that `handle` writes.
  unfoldable pub handle : Av → Result Av
  unfolding handle_auth handle_info
  handle req =
      let tactype = or_else (av_get av_tactype req) [] in
      if str_eq tactype (str "AUTH")
      then handle_auth req
      else if str_eq tactype (str "INFO")
      then handle_info req
      else if str_eq tactype (str "CHPW")
      then ok (av_set av_result result_fail req)
      else if str_eq tactype (str "HOST")
      then ok (av_set av_result result_ok req)
      else ok (av_set av_result result_fail req)

  -- `main`, on fuel: the lines written until the end of the input or an exception. Without fuel there
  -- is no result.
  answer : Result Av → (Unit {0} → Option (List Str)) → Option (List Str)
  unfolding write_response
  answer (ok av) rest = elim (rest tt) [ none ↦ none | some l ↦ some (write_response av ++ l) ]
  answer (err e) rest = some []

  unfoldable pub run : ℕ → List Str → Option (List Str)
  unfolding answer handle
  run zero input = none
  run (suc fuel) input = elim (read_request [] input) [
    | none ↦ some []
    | some (req, rest) ↦ answer (handle req) (λ _. run fuel rest)
  ]
