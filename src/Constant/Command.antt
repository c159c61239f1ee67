-- ===== src/Constant/Command.antt =====
-- `impl Command` of src/constant.rs.
use pgmoneta_mcp.Prelude.{ℕ, String, ◌==◌, if◌then◌else◌}
use pgmoneta_mcp.Result.{Result, ok, err, unrecognized_command}

abbrev pub backup : ℕ
backup = 1

abbrev pub list_backup : ℕ
list_backup = 2

abbrev pub restore : ℕ
restore = 3

abbrev pub archive : ℕ
archive = 4

abbrev pub delete : ℕ
delete = 5

abbrev pub shutdown : ℕ
shutdown = 6

abbrev pub status : ℕ
status = 7

abbrev pub status_details : ℕ
status_details = 8

abbrev pub ping : ℕ
ping = 9

abbrev pub reset : ℕ
reset = 10

abbrev pub reload : ℕ
reload = 11

abbrev pub retain : ℕ
retain = 12

abbrev pub expunge : ℕ
expunge = 13

abbrev pub decrypt : ℕ
decrypt = 14

abbrev pub encrypt : ℕ
encrypt = 15

abbrev pub decompress : ℕ
decompress = 16

abbrev pub compress : ℕ
compress = 17

abbrev pub info : ℕ
info = 18

abbrev pub verify : ℕ
verify = 19

abbrev pub annotate : ℕ
annotate = 20

abbrev pub conf_ls : ℕ
conf_ls = 21

abbrev pub conf_get : ℕ
conf_get = 22

abbrev pub conf_set : ℕ
conf_set = 23

abbrev pub mode : ℕ
mode = 24

unfoldable pub translate_command_enum : ℕ → Result String
translate_command_enum command =
    if command == backup
    then ok "backup"
    else if command == list_backup
    then ok "list-backup"
    else if command == restore
    then ok "restore"
    else if command == archive
    then ok "archive"
    else if command == delete
    then ok "delete"
    else if command == shutdown
    then ok "shutdown"
    else if command == status
    then ok "status"
    else if command == status_details
    then ok "status details"
    else if command == ping
    then ok "ping"
    else if command == reset
    then ok "clear prometheus"
    else if command == reload
    then ok "conf reload"
    else if command == retain
    then ok "retain"
    else if command == expunge
    then ok "expunge"
    else if command == decrypt
    then ok "decrypt"
    else if command == encrypt
    then ok "encrypt"
    else if command == decompress
    then ok "decompress"
    else if command == compress
    then ok "compress"
    else if command == info
    then ok "info"
    else if command == verify
    then ok "verify"
    else if command == annotate
    then ok "annotate"
    else if command == conf_ls
    then ok "conf ls"
    else if command == conf_get
    then ok "conf get"
    else if command == conf_set
    then ok "conf set"
    else if command == mode
    then ok "mode"
    else err (unrecognized_command command)
