-- ===== src/Mavis/Child/Acks.antt =====
-- Where an acknowledgement of the child comes from.
use tacacs_web.Prelude.{
  ◌≡◌, ◌≢◌, refl, sym, ap, ◌∙◌, Bool, true, false, some, List, [], Str, str, str_eq, is_empty,
  or_else, if◌then◌else◌,
}
use tacacs_web.Result.{ok_inj, Result, ok, err}
use tacacs_web.Mavis.Child.{
  Av, av_get, av_set, av_user, av_result, av_password, av_serverip, av_tactype, result_ok,
  result_error, is_verdict, Leaf, text, number_or_null, unhashable, HttpReply, http_error,
  unreachable, json_object, json_other, PostResult, field_of, check_result, read_reply, Backend,
  auth_payload, call_backend_auth, call_backend_info, attach_info, after_auth, handle_auth, handle,
}
use tacacs_web.Mavis.Child.Verdicts.{av_get-set, attach_profile-result}

-- The result of an AUTH answer is the one that the backend gave for the name and the password.
after_auth-result :
    (backend : Backend) (username nas_ip : Str) (req av : Av) (reply : Result PostResult)
    → after_auth backend username nas_ip req reply ≡ ok av
    → (r : PostResult) × (reply ≡ ok r) × (av_get av_result av ≡ some r.result)
unfolding after_auth attach_info
after_auth-result backend username nas_ip req av (err e) h = absurd (cc h)
after_auth-result backend username nas_ip req av (ok r) h = (
  r,
  refl,
  split (str_eq r.result result_ok) (is_empty nas_ip) (call_backend_info backend username nas_ip) h,
)
  where
    set : av_get av_result (av_set av_result r.result req) ≡ some r.result
    set = av_get-set av_result av_result r.result req

    given :
        (x : Av)
        → ok x ≡ ok av
        → av_get av_result x ≡ some r.result
        → av_get av_result av ≡ some r.result
    given x e f = ap (av_get av_result) (sym (ok_inj e)) ∙ f

    split :
        (acked no_nas : Bool) (info : Result PostResult)
        → (if acked
            then (if no_nas
                then ok (av_set av_result r.result req)
                else attach_info backend info (av_set av_result r.result req))
            else ok (av_set av_result r.result req))
          ≡ ok av
        → av_get av_result av ≡ some r.result
    split true true info e = given _ e set
    split true false (ok i) e = given _ e (attach_profile-result backend i _ ∙ set)
    split true false (err x) e = absurd (cc e)
    split false no_nas info e = given _ e set

error_is_no_ack : result_error ≢ result_ok
unfolding str_eq
error_is_no_ack h = absurd (cc (ap (λ s. str_eq s result_ok) h))

check_result-ack :
    (leaf : Leaf) (fields : List (Str × Leaf)) (r : PostResult)
    → check_result leaf fields ≡ ok r
    → r.result ≡ result_ok
    → leaf ≡ text result_ok
unfolding check_result
check_result-ack unhashable fields r h ack = absurd (cc h)
check_result-ack number_or_null fields r h ack =
    absurd (error_is_no_ack (ap (λ (x : PostResult). x.result) (ok_inj h) ∙ ack))
check_result-ack (text s) fields r h ack = ap text (split (is_verdict s) _ _ refl refl h)
  where
    split :
        (b : Bool) (x y : PostResult)
        → x.result ≡ s
        → y.result ≡ result_error
        → (if b then ok x else ok y) ≡ ok r
        → s ≡ result_ok
    split true x y e f g = sym e ∙ ap (λ (x : PostResult). x.result) (ok_inj g) ∙ ack
    split false x y e f g =
        absurd (error_is_no_ack (sym f ∙ ap (λ (x : PostResult). x.result) (ok_inj g) ∙ ack))

read_reply-ack :
    (reply : HttpReply) (r : PostResult)
    → read_reply reply ≡ ok r
    → r.result ≡ result_ok
    → (fields : List (Str × Leaf)) × (reply ≡ json_object fields)
      × (field_of (str "result") fields ≡ text result_ok)
unfolding read_reply
read_reply-ack (http_error code) r h ack =
    absurd (error_is_no_ack (ap (λ (x : PostResult). x.result) (ok_inj h) ∙ ack))
read_reply-ack (unreachable name) r h ack =
    absurd (error_is_no_ack (ap (λ (x : PostResult). x.result) (ok_inj h) ∙ ack))
read_reply-ack (json_object fields) r h ack =
    (fields, refl, check_result-ack (field_of (str "result") fields) fields r h ack)
read_reply-ack json_other r h ack = absurd (cc h)

-- An AUTH request is acknowledged only if the backend acknowledged the name and the password of the
-- request: an error, an unreachable backend or an answer that is no verdict never lets a user in.
pub handle-ack :
    (backend : Backend) (req av : Av)
    → av_get av_tactype req ≡ some (str "AUTH")
    → handle backend req ≡ ok av
    → av_get av_result av ≡ some result_ok
    → (fields : List (Str × Leaf)) × (backend (str "/internal/mavis/auth") (
          auth_payload
            (or_else (av_get av_user req) [])
            (or_else (av_get av_password req) [])
            (or_else (av_get av_serverip req) []))
        ≡ json_object fields)
      × (field_of (str "result") fields ≡ text result_ok)
unfolding handle handle_auth call_backend_auth str_eq
handle-ack backend req av tactype h ack =
    let (r, e, f) = after_auth-result backend _ _ req av _ (sym auth ∙ h) in
    read_reply-ack _ r e (some_inj (sym f ∙ ack))
  where
    some_inj : {a b : Str} → some a ≡ some b → a ≡ b
    some_inj q = cc q

    auth : handle backend req ≡ handle_auth backend req
    auth = rw tactype refl
