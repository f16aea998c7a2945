-- ===== src/Tests/ChildTests.antt =====
-- The child of the daemon at a concrete request.
use tacacs_web.Mavis.Child.Loop.{run-fuel, run-wire, wire, replies}
use tacacs_web.Mavis.Child.Wire.{request_line, set_all, read_request-pairs}
use tacacs_web.Prelude.{
  ℕ, All, Lacks, map, ◌++◌, arith, ◌≡◌, refl, some, List, [], ◌∷◌, Str, str, str_eq, or_else,
}
use tacacs_web.Result.{ok}
use tacacs_web.Mavis.Child.{
  Av, av_get, av_set, av_user, av_result, av_password, av_serverip, av_tactype, result_ok, Leaf,
  text, json_object, Backend, auth_payload, field_of, read_reply, call_backend_auth, handle,
  read_request, run,
}
use tacacs_web.Mavis.Child.Verdicts.{HasVerdict, handle-HasVerdict}
use tacacs_web.Mavis.Child.Acks.{handle-ack}

abbrev yes : Backend
yes path payload = json_object ((str "result", text result_ok) ∷ [])

abbrev login : Av
login = (av_user, str "jan") ∷ (av_password, str "pw") ∷ (av_tactype, str "AUTH") ∷ []

abbrev answered : Av
answered =
    (av_user, str "jan")
    ∷ (av_password, str "pw")
    ∷ (av_tactype, str "AUTH")
    ∷ (av_result, result_ok)
    ∷ []

accepts : handle yes login ≡ ok answered
unfolding handle av_get av_set str_eq read_reply field_of call_backend_auth
accepts = refl

handle-HasVerdict_example : HasVerdict answered
handle-HasVerdict_example = handle-HasVerdict yes login answered accepts

is_login : av_get av_tactype login ≡ some (str "AUTH")
unfolding av_get
is_login = refl

is_acked : av_get av_result answered ≡ some result_ok
unfolding av_get
is_acked = refl

handle-ack_example :
    (fields : List (Str × Leaf)) × (yes (str "/internal/mavis/auth") (
        auth_payload
          (or_else (av_get av_user login) [])
          (or_else (av_get av_password login) [])
          (or_else (av_get av_serverip login) []))
      ≡ json_object fields)
    × (field_of (str "result") fields ≡ text result_ok)
handle-ack_example = handle-ack yes login answered is_login accepts is_acked

run-fuel_example : (out : List Str) × (run yes 3 (str "6 x\n" ∷ str "=\n" ∷ []) ≡ some out)
run-fuel_example = run-fuel yes 3 (str "6 x\n" ∷ str "=\n" ∷ []) (omega arith)

abbrev two_pairs : List (ℕ × Str)
two_pairs = (4, str "jan") ∷ (49, str "AUTH") ∷ []

clean_pairs : All (λ (p : ℕ × Str). Lacks 10 p.1) two_pairs
clean_pairs = ((refl, (refl, (refl, tt))), ((refl, (refl, (refl, (refl, tt)))), tt))

read_request-pairs_example :
    read_request [] (map request_line two_pairs ++ str "=\n" ∷ str "6 x\n" ∷ [])
    ≡ some (set_all two_pairs [], str "6 x\n" ∷ [])
read_request-pairs_example = read_request-pairs two_pairs [] (str "6 x\n" ∷ []) clean_pairs

run-wire_example :
    run yes 3 (wire (two_pairs ∷ two_pairs ∷ [])) ≡ some (replies yes (two_pairs ∷ two_pairs ∷ []))
run-wire_example =
    run-wire yes 3 (two_pairs ∷ two_pairs ∷ []) (omega arith) (clean_pairs, (clean_pairs, tt))
