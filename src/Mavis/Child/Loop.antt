-- ===== src/Mavis/Child/Loop.antt =====
-- The main loop of the child: reading consumes lines, so that it ends with the input, and each request
-- is answered by itself.
use tacacs_web.Prelude.{
  ℕ, zero, suc, ◌<◌, ◌≡◌, refl, ap, ◌∙◌, Bool, true, false, Option, none, some, List, [], ◌∷◌, ◌++◌,
  map, All, Lacks, Str, str, str_eq, length, arith, if◌then◌else◌,
}
use tacacs_web.Mavis.Child.{
  Av, Backend, chomp, take_line, read_request, handle, write_response, answer, run,
}
use tacacs_web.Mavis.Child.Wire.{request_line, set_all, read_request-pairs}
use tacacs_web.Result.{Result, ok, err}

-- A request that was read has used up at least the line that ends it.
read_request-length :
    (req : Av) (input : List Str) (got : Av) (rest : List Str)
    → read_request req input ≡ some (got, rest)
    → length rest < length input
unfolding read_request
read_request-length req [] got rest h = absurd (cc h)
read_request-length req (raw ∷ lines) got rest h =
    split (str_eq (chomp raw) (str "=")) h
      (read_request-length (take_line (chomp raw) req) lines got rest)
  where
    split :
        (b : Bool)
        → (if b then some (req, lines) else read_request (take_line (chomp raw) req) lines)
          ≡ some (got, rest)
        → (read_request (take_line (chomp raw) req) lines ≡ some (got, rest)
            → length rest < length lines)
        → length rest < suc (length lines)
    split true e again = let q = ap (pair_length 0) e in omega (arith, q)
      where
        pair_length : ℕ → Option (Av × List Str) → ℕ
        pair_length d none = d
        pair_length d (some (r, l)) = length l
    split false e again = let lt = again e in omega (arith, lt)

-- An answered request leaves the loop to go on, and an exception ends it.
answer-some :
    (backend : Backend) (r : Result Av) (rest : Unit {0} → Option (List Str)) (lines : List Str)
    → rest tt ≡ some lines
    → (out : List Str) × (answer backend r rest ≡ some out)
unfolding answer
answer-some backend (ok av) rest lines h = (
  write_response av ++ lines,
  ap (λ (o : Option (List Str)). elim o [ none ↦ none | some l ↦ some (write_response av ++ l) ]) h,
)
answer-some backend (err e) rest lines h = ([], refl)

-- The main loop ends on every input: fuel for more turns than the input has lines gives a result,
-- whatever the backend answers.
pub run-fuel :
    (backend : Backend) (fuel : ℕ) (input : List Str)
    → length input < fuel
    → (out : List Str) × (run backend fuel input ≡ some out)
unfolding run
run-fuel backend zero input h = absurd (omega (arith, h))
run-fuel backend (suc fuel) input h =
    split (read_request [] input) (read_request-length [] input) (run-fuel backend fuel)
  where
    split :
        (q : Option (Av × List Str))
        → ((got : Av) (rest : List Str) → q ≡ some (got, rest) → length rest < length input)
        → ((rest : List Str)
            → length rest < fuel
            → (out : List Str) × (run backend fuel rest ≡ some out))
        → (out : List Str) × (elim q [
          | none ↦ some []
          | some (req, rest) ↦ answer backend (handle backend req) (λ _. run backend fuel rest)
        ]
            ≡ some out)
    split none less again = ([], refl)
    split (some (req, rest)) less again =
        let lt = less req rest refl in
        let (lines, e) = again rest (omega (arith, lt, h)) in
        answer-some backend (handle backend req) (λ _. run backend fuel rest) lines e

-- What the daemon writes for a sequence of requests.
pub wire : List (List (ℕ × Str)) → List Str
wire [] = []
wire (pairs ∷ requests) = map request_line pairs ++ str "=\n" ∷ wire requests

-- What it gets back: for each request, by itself, the answer to its pairs, up to the first that the
-- child cannot handle.
pub replies : Backend → List (List (ℕ × Str)) → List Str
replies backend [] = []
replies backend (pairs ∷ requests) = elim (handle backend (set_all pairs [])) [
  | ok av ↦ write_response av ++ replies backend requests
  | err e ↦ []
]

-- Whatever sequence of requests the daemon writes, with values that hold no line feed, the main loop
-- answers each of them by itself and in order, up to the first that raises an exception, and ends with
-- the input. Fuel for one turn more than there are requests is enough.
pub run-wire :
    (backend : Backend) (fuel : ℕ) (requests : List (List (ℕ × Str)))
    → length requests < fuel
    → All (λ pairs. All (λ (p : ℕ × Str). Lacks 10 p.1) pairs) requests
    → run backend fuel (wire requests) ≡ some (replies backend requests)
unfolding run wire replies answer read_request
run-wire backend zero requests h clean = absurd (omega (arith, h))
run-wire backend (suc fuel) [] h clean = refl
run-wire backend (suc fuel) (pairs ∷ requests) h (c, clean) =
    ap
      (λ (q : Option (Av × List Str)). elim q [
        | none ↦ some []
        | some (req, rest) ↦ answer backend (handle backend req) (λ _. run backend fuel rest)
      ])
      (read_request-pairs pairs [] (wire requests) c)
    ∙ split (handle backend (set_all pairs []))
        (run-wire backend fuel requests (omega (arith, h)) clean)
  where
    split :
        (r : Result Av)
        → run backend fuel (wire requests) ≡ some (replies backend requests)
        → answer backend r (λ _. run backend fuel (wire requests))
          ≡ some (elim r [ ok av ↦ write_response av ++ replies backend requests | err e ↦ [] ])
    split (ok av) ih = rw ih refl
    split (err e) ih = refl
