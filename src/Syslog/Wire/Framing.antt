-- ===== src/Syslog/Wire/Framing.antt =====
-- The framing of the lines on the wire.
use tacacs_web.Prelude.{
  ℕ, zero, suc, ◌≤◌, ◌≡◌, refl, ap, Bool, str, append_assoc, ◌∙◌, true, false, Option, none, some,
  List, [], ◌∷◌, ◌++◌, length, take, length-append, length-take-le, All, arith, ltb, ltb→lt, ◌==◌,
  decimal, is_digit, digits_value, digits_value-decimal, decimal-digits, if◌then◌else◌,
}
use tacacs_web.Syslog.Wire.{udp_max_bytes, frame, datagram}

-- A datagram is at most 8000 bytes long, and a payload that is not longer is sent as it is.
pub length-datagram :
    (payload : List ℕ)
    → (length (datagram payload) ≤ udp_max_bytes)
      × (length payload ≤ udp_max_bytes → datagram payload ≡ payload)
unfolding datagram
length-datagram payload = split (ltb udp_max_bytes (length payload)) refl
  where
    split :
        (b : Bool)
        → ltb udp_max_bytes (length payload) ≡ b
        → (length (if b then take 7986 payload ++ str "...[truncated]" else payload)
            ≤ udp_max_bytes)
          × (length payload ≤ udp_max_bytes
              → (if b then take 7986 payload ++ str "...[truncated]" else payload) ≡ payload)
    split true e =
        let n = length-append (take 7986 payload) (str "...[truncated]") in
        let k = length-take-le 7986 payload in
        let lt = ltb→lt _ _ e in (omega (arith, n, k), λ h. absurd (omega (arith, h, lt)))
    split false e = (ground arith, λ h. refl)

-- A receiver of octet-counted messages (RFC 6587): the digits up to a space, then as many bytes. It
-- translates no code of the program.
unfoldable pub digits_then : List ℕ → List ℕ × List ℕ
digits_then [] = ([], [])
digits_then (c ∷ s) = let rest = digits_then s in if c == 32 then ([], s) else (c ∷ rest.0, rest.1)

unfoldable pub drop : ℕ → List ℕ → List ℕ
drop zero xs = xs
drop (suc n) [] = []
drop (suc n) (x ∷ xs) = drop n xs

abbrev take_body : List ℕ → Option ℕ → Option (List ℕ × List ℕ)
take_body rest none = none
take_body rest (some n) = some (take n rest, drop n rest)

abbrev read_body : List ℕ × List ℕ → Option (List ℕ × List ℕ)
read_body (digits, rest) = take_body rest (digits_value 0 digits)

unfoldable pub read_frame : List ℕ → Option (List ℕ × List ℕ)
unfolding digits_then drop
read_frame s = read_body (digits_then s)

digits_then-digits :
    (digits rest : List ℕ)
    → All (λ c. is_digit c ≡ true) digits
    → digits_then (digits ++ 32 ∷ rest) ≡ (digits, rest)
unfolding digits_then
digits_then-digits [] rest h = refl
digits_then-digits (c ∷ digits) rest (d, h) =
    rw (not_space c d) (rw (digits_then-digits digits rest h))
  where
    not_space : (c : ℕ) → is_digit c ≡ true → (c == 32) ≡ false
    not_space c d = ground arith

take-length : (xs ys : List ℕ) → take (length xs) (xs ++ ys) ≡ xs
take-length [] ys = refl
take-length (x ∷ xs) ys = ap (λ l. x ∷ l) (take-length xs ys)

drop-length : (xs ys : List ℕ) → drop (length xs) (xs ++ ys) ≡ ys
unfolding drop
drop-length [] ys = refl
drop-length (x ∷ xs) ys = drop-length xs ys

-- A receiver takes a frame off the stream as exactly its payload, whatever follows and whatever the
-- payload holds, line feeds and spaces included: the messages of a batch cannot run together.
pub read_frame-frame :
    (payload rest : List ℕ) → read_frame (frame payload ++ rest) ≡ some (payload, rest)
unfolding read_frame frame
read_frame-frame payload rest =
    let len = length payload in
    ap (λ l. read_body (digits_then l)) (append_assoc (decimal len) (32 ∷ payload) rest)
    ∙ ap read_body (digits_then-digits (decimal len) (payload ++ rest) (decimal-digits len))
    ∙ ap (take_body (payload ++ rest)) (digits_value-decimal len)
    ∙ cc (take-length payload rest, drop-length payload rest)
