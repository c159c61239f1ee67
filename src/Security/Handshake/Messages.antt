-- ===== src/Security/Handshake/Messages.antt =====
-- One message of the handshake of src/security.rs, sent or received.
use mathlib.Core.Path.{subst}
use pgmoneta_mcp.Prelude.{◌≡◌, refl, sym, ap, ◌∙◌, ◌++◌, arith}
use pgmoneta_mcp.Bytes.{Bytes}
use pgmoneta_mcp.Result.{Result, ok, err, Error, Phase, auth_success, map_err, failed_to_send}
use pgmoneta_mcp.Action.{lift}
use pgmoneta_mcp.Stream.Writing.{put-eq-ok}
use pgmoneta_mcp.Stream.{Writer, Timed, done, failed, elapsed, put, write_all}
use pgmoneta_mcp.Security.Wire.{read_message}
use pgmoneta_mcp.Security.Handshake.{Connection, send, receive, receive_outcome, check_success}

pub send_outcome :
    (f : Error → Error) (r : Result (Unit {0})) (w : Writer) (c d : Connection)
    → ◌≡◌ {A = Result (Unit {0}) × Connection} (map_err f r, record c { writer = w }) (ok tt, d)
    → (r ≡ ok tt) × (d.reader ≡ c.reader) × (d.writer ≡ w)
send_outcome f (ok u) w c d h = (
  refl,
  ap (λ (x : Result (Unit {0}) × Connection). x.1.reader) (sym h),
  ap (λ (x : Result (Unit {0}) × Connection). x.1.writer) (sym h),
)
send_outcome f (err e) w c d h = cc

-- A message that was sent is on the wire, and nothing was read.
pub send-eq-ok :
    (phase : Phase) (message : Bytes) (c d : Connection)
    → send phase message c ≡ (ok tt, d)
    → (d.reader ≡ c.reader) × (d.writer.sent ≡ c.writer.sent ++ message)
unfolding send write_all
send-eq-ok phase message c d h =
    let (r, w) = put message c.writer.sent c.writer.room in
    let (sent, reader, writer) = send_outcome (λ e. failed_to_send phase) r w c d h in
    (
      reader,
      ap (λ (v : Writer). v.sent) writer ∙ put-eq-ok message c.writer.sent c.writer.room sent,
    )

-- The reader's next message.
abbrev pub Received : Connection → Bytes → Connection → Type 0
Received c m d = (read_message c.reader ≡ done (ok m) d.reader) × (d.writer ≡ c.writer)

pub receive_outcome-eq-ok :
    (phase : Phase) (t : Timed (Result Bytes)) (c d : Connection) (m : Bytes)
    → receive_outcome phase t c ≡ (ok m, d)
    → (t ≡ done (ok m) d.reader) × (d.writer ≡ c.writer)
receive_outcome-eq-ok phase (done r reader) c d m h = ground arith
receive_outcome-eq-ok phase (failed e) c d m h = cc
receive_outcome-eq-ok phase elapsed c d m h = cc

pub receive-eq-ok :
    (phase : Phase) (c d : Connection) (m : Bytes) → receive phase c ≡ (ok m, d) → Received c m d
unfolding receive
receive-eq-ok phase c d m h = receive_outcome-eq-ok phase (read_message c.reader) c d m h

pub last_step :
    (success : Bytes) (c4 c5 d : Connection)
    → receive auth_success c4 ≡ (ok success, c5)
    → lift (check_success success) c5 ≡ (ok tt, d)
    → receive auth_success c4 ≡ (ok success, d)
last_step success c4 c5 d got h =
    subst (λ x. receive auth_success c4 ≡ (ok success, x))
      (ap (λ (x : Result (Unit {0}) × Connection). x.1) h) got
