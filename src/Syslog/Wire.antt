-- ===== src/Syslog/Wire.antt =====
-- What the transport of backend/app/syslog/forwarder.py puts on the wire. A byte is a number;
-- `encode` is UTF-8 and `deliver` is the socket, with all the chunks of one connection in order.
pub mod Framing
use tacacs_web.Prelude.{
  ℕ, ◌-◌, Bool, List, [], ◌∷◌, ◌++◌, map, Str, str, decimal, length, take, ltb, is_empty,
  if◌then◌else◌,
}
use tacacs_web.Result.{Result, err, runtime_error}
use tacacs_web.Syslog.Config.{SyslogConfig, Protocol, tcp, udp, tls}
use tacacs_web.Syslog.Format.{test_message}

abbrev pub udp_max_bytes : ℕ
udp_max_bytes = 8000

unfoldable pub frame : List ℕ → List ℕ
frame payload = decimal (length payload) ++ 32 ∷ payload

unfoldable pub datagram : List ℕ → List ℕ
datagram payload =
    if ltb udp_max_bytes (length payload)
    then take (udp_max_bytes - 14) payload ++ str "...[truncated]"
    else payload

unfoldable pub packet : Protocol → List ℕ → List ℕ
unfolding frame datagram
packet udp payload = datagram payload
packet tcp payload = frame payload
packet tls payload = frame payload

-- One connection: the configuration and what is sent.
abbrev pub Deliver : Type 0
Deliver = SyslogConfig → List (List ℕ) → Result (Unit {0})

module _ (encode : Str → List ℕ) (deliver : Deliver) where
  unfoldable pub send_lines : SyslogConfig → List Str → Result (Unit {0})
  unfolding packet
  send_lines cfg lines =
      if is_empty cfg.host
      then err runtime_error
      else deliver cfg (map (λ line. packet cfg.protocol (encode line)) lines)

  pub send_test_message : (ℕ → Str) → ℕ → SyslogConfig → Result (Unit {0})
  unfolding send_lines test_message
  send_test_message timestamp now cfg = send_lines cfg (test_message timestamp now cfg ∷ [])
