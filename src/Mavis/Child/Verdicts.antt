-- ===== src/Mavis/Child/Verdicts.antt =====
-- The verdict in the answers of the child.
use tacacs_web.Prelude.{
  ◌≡◌, refl, sym, ap, ◌∙◌, subst, inl, inr, Bool, true, false, Option, none, some, List, [], ◌∷◌,
  Bool-cases, Str, str, str_eq, is_empty, or_else, if◌then◌else◌,
}
use tacacs_web.Prelude.Int.{ℤ, int_eq, eq_of_int_eq, int_eq_refl}
use tacacs_web.Result.{ok_inj, Result, ok, err}
use tacacs_web.Mavis.Child.{
  Av, av_get, av_set, av_user, av_result, av_password, av_serverip, av_tacprofile, av_tactype,
  result_ok, result_fail, is_verdict, Leaf, text, number_or_null, unhashable, HttpReply, http_error,
  unreachable, json_object, json_other, PostResult, field_of, check_result, read_reply, Backend,
  auth_payload, call_backend_auth, call_backend_info, attach_profile, attach_info, after_auth,
  after_info, handle_auth, handle_info, handle,
}

int_eq_trans : (j k i : ℤ) → int_eq j k ≡ true → int_eq j i ≡ int_eq k i
int_eq_trans j k i h = ap (λ x. int_eq x i) (eq_of_int_eq j k h)

-- A written key is read back, and the others are as before.
pub av_get-set :
    (k j : ℤ) (v : Str) (av : Av)
    → av_get j (av_set k v av) ≡ (if int_eq k j then some v else av_get j av)
unfolding av_get av_set
av_get-set k j v [] = refl
av_get-set k j v ((i, w) ∷ av) = elim (Bool-cases (int_eq i k)) [
  | inl e ↦ rw e (rw (int_eq_trans i k j e) (again (int_eq k j)))
  | inr e ↦ rw e (elim (Bool-cases (int_eq i j)) [
    | inl f ↦ rw f (rw (other f e) refl)
    | inr f ↦ rw f (av_get-set k j v av)
  ])
]
  where
    again :
        (b : Bool)
        → (if b then some v else av_get j av)
          ≡ (if b then some v else (if b then some w else av_get j av))
    again true = refl
    again false = refl

    other : int_eq i j ≡ true → int_eq i k ≡ false → int_eq k j ≡ false
    other f e = elim (Bool-cases (int_eq k j)) [
      | inl g ↦ absurd (cc (sym (int_eq_trans k j k g) ∙ int_eq_refl k, int_eq_trans i j k f, e))
      | inr g ↦ g
    ]

abbrev pub HasVerdict : Av → Type 0
HasVerdict av = (r : Str) × (av_get av_result av ≡ some r) × (is_verdict r ≡ true)

either_verdict :
    (b : Bool) (x y r : PostResult)
    → (b ≡ true → is_verdict x.result ≡ true)
    → is_verdict y.result ≡ true
    → (if b then ok x else ok y) ≡ ok r
    → is_verdict r.result ≡ true
either_verdict true x y r hx hy h =
    ap (λ (x : PostResult). is_verdict x.result) (sym (ok_inj h)) ∙ hx refl
either_verdict false x y r hx hy h =
    ap (λ (x : PostResult). is_verdict x.result) (sym (ok_inj h)) ∙ hy

check_result-verdict :
    (leaf : Leaf) (fields : List (Str × Leaf)) (r : PostResult)
    → check_result leaf fields ≡ ok r
    → is_verdict r.result ≡ true
unfolding check_result str_eq
check_result-verdict unhashable fields r h = absurd (cc h)
check_result-verdict number_or_null fields r h =
    ap (λ (x : PostResult). is_verdict x.result) (sym (ok_inj h))
check_result-verdict (text s) fields r h = either_verdict (is_verdict s) _ _ r (λ e. e) refl h

-- What the child takes from an HTTP answer is one of the four verdicts.
read_reply-verdict :
    (reply : HttpReply) (r : PostResult) → read_reply reply ≡ ok r → is_verdict r.result ≡ true
unfolding read_reply str_eq
read_reply-verdict (http_error code) r h =
    ap (λ (x : PostResult). is_verdict x.result) (sym (ok_inj h))
read_reply-verdict (unreachable name) r h =
    ap (λ (x : PostResult). is_verdict x.result) (sym (ok_inj h))
read_reply-verdict (json_object fields) r h =
    check_result-verdict (field_of (str "result") fields) fields r h
read_reply-verdict json_other r h = absurd (cc h)

pub attach_profile-result :
    (backend : Backend) (r : PostResult) (av : Av)
    → av_get av_result (attach_profile backend r av) ≡ av_get av_result av
unfolding attach_profile
attach_profile-result backend r av = on_profile r.profile
  where
    on_profile :
        (p : Option Str)
        → av_get av_result (elim p [
          | none ↦ av
          | some p ↦ if str_eq r.result result_ok then av_set av_tacprofile p av else av
        ])
          ≡ av_get av_result av
    on_profile none = refl
    on_profile (some p) = elim (Bool-cases (str_eq r.result result_ok)) [
      | inl e ↦ rw e (av_get-set av_tacprofile av_result p av)
      | inr e ↦ rw e refl
    ]

HasVerdict-set : (r : Str) (req : Av) → is_verdict r ≡ true → HasVerdict (av_set av_result r req)
HasVerdict-set r req h = (r, av_get-set av_result av_result r req, h)

HasVerdict-attach_profile :
    (backend : Backend) (r : PostResult) (av : Av)
    → HasVerdict av
    → HasVerdict (attach_profile backend r av)
HasVerdict-attach_profile backend r av (v, e, h) = (v, attach_profile-result backend r av ∙ e, h)

HasVerdict-attach_info :
    (backend : Backend) (reply : Result PostResult) (req av : Av)
    → HasVerdict req
    → attach_info backend reply req ≡ ok av
    → HasVerdict av
unfolding attach_info
HasVerdict-attach_info backend (ok r) req av v h =
    subst HasVerdict (ok_inj h) (HasVerdict-attach_profile backend r req v)
HasVerdict-attach_info backend (err e) req av v h = absurd (cc h)

HasVerdict-after_auth :
    (backend : Backend) (username nas_ip : Str) (req av : Av) (reply : Result PostResult)
    → ((r : PostResult) → reply ≡ ok r → is_verdict r.result ≡ true)
    → after_auth backend username nas_ip req reply ≡ ok av
    → HasVerdict av
unfolding after_auth
HasVerdict-after_auth backend username nas_ip req av (err e) verdict h = absurd (cc h)
HasVerdict-after_auth backend username nas_ip req av (ok r) verdict h =
    split (str_eq r.result result_ok) (is_empty nas_ip) h
  where
    set : HasVerdict (av_set av_result r.result req)
    set = HasVerdict-set r.result req (verdict r refl)

    split :
        (acked no_nas : Bool)
        → (if acked
            then (if no_nas
                then ok (av_set av_result r.result req)
                else attach_info backend
                    (call_backend_info backend username nas_ip)
                    (av_set av_result r.result req))
            else ok (av_set av_result r.result req))
          ≡ ok av
        → HasVerdict av
    split true true e = subst HasVerdict (ok_inj e) set
    split true false e = HasVerdict-attach_info backend _ _ av set e
    split false no_nas e = subst HasVerdict (ok_inj e) set

HasVerdict-after_info :
    (backend : Backend) (req av : Av) (reply : Result PostResult)
    → ((r : PostResult) → reply ≡ ok r → is_verdict r.result ≡ true)
    → after_info backend req reply ≡ ok av
    → HasVerdict av
unfolding after_info
HasVerdict-after_info backend req av (err e) verdict h = absurd (cc h)
HasVerdict-after_info backend req av (ok r) verdict h =
    subst HasVerdict (ok_inj h)
      (HasVerdict-attach_profile backend r _ (HasVerdict-set r.result req (verdict r refl)))

-- Whatever the request holds and whatever the backend answers, a request that the child answers is
-- answered with a result that is one of ACK, NAK, NFD and ERR.
pub handle-HasVerdict :
    (backend : Backend) (req av : Av) → handle backend req ≡ ok av → HasVerdict av
unfolding handle handle_auth handle_info call_backend_auth call_backend_info str_eq
handle-HasVerdict backend req av h =
    split (str_eq tactype (str "AUTH")) (str_eq tactype (str "INFO")) (str_eq tactype (str "CHPW"))
      (str_eq tactype (str "HOST")) h
  where
    tactype : Str
    tactype = or_else (av_get av_tactype req) []

    username : Str
    username = or_else (av_get av_user req) []

    password : Str
    password = or_else (av_get av_password req) []

    nas_ip : Str
    nas_ip = or_else (av_get av_serverip req) []

    split :
        (is_auth is_info is_chpw is_host : Bool)
        → (if is_auth
            then handle_auth backend req
            else if is_info
            then handle_info backend req
            else if is_chpw
            then ok (av_set av_result result_fail req)
            else if is_host
            then ok (av_set av_result result_ok req)
            else ok (av_set av_result result_fail req))
          ≡ ok av
        → HasVerdict av
    split true is_info is_chpw is_host e =
        HasVerdict-after_auth backend username nas_ip req av
          (call_backend_auth backend username password nas_ip)
          (read_reply-verdict
            (backend (str "/internal/mavis/auth") (auth_payload username password nas_ip)))
          e
    split false true is_chpw is_host e =
        HasVerdict-after_info backend req av (call_backend_info backend username nas_ip)
          (read_reply-verdict (
            backend (str "/internal/mavis/info")
              ((str "username", username) ∷ (str "nas_ip", nas_ip) ∷ [])))
          e
    split false false true is_host e =
        subst HasVerdict (ok_inj e) (HasVerdict-set result_fail req refl)
    split false false false true e = subst HasVerdict (ok_inj e) (HasVerdict-set result_ok req refl)
    split false false false false e =
        subst HasVerdict (ok_inj e) (HasVerdict-set result_fail req refl)
