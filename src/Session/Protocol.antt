-- ===== src/Session/Protocol.antt =====
-- core/protocol.go: what a session says to the server, and how it reads the answer.
use pwdtt.Prelude.{[], ◌++◌, Result, ok, err, take, drop, if◌then◌else◌}
use pwdtt.Prelude.Text.{Text, codes, ◌≗◌, has_prefix}

unfoldable getconf_payload : Text → Text → Text → Text
getconf_payload local_port device_id password =
    codes "GETCONF:" ++ local_port ++ codes "|" ++ device_id ++ codes "|" ++ password

unfoldable auth_payload : Text → Text → Text
auth_payload device_id password = codes "AUTH:" ++ device_id ++ codes "|" ++ password

-- What the connection gives: an error of the write, of the deadline or of the read, or the bytes.
pub data Answer : Type 0 where
  write_fails deadline_fails read_fails : Text → Answer
  reads : Text → Answer

abbrev pub denied : Text
denied = codes "DENIED:"

abbrev pub fatal_auth : Text → Text
fatal_auth message = codes "FATAL_AUTH: " ++ message

-- Each message says that the refusal is final.
unfoldable pub denial_reason : Text → Text
denial_reason reason =
    if reason ≗ codes "wrong_password"
    then codes "неверный пароль подключения"
    else if reason ≗ codes "expired"
    then codes "срок действия пароля истёк"
    else if reason ≗ codes "device_mismatch"
    then codes "пароль привязан к другому устройству"
    else codes "доступ запрещён (" ++ reason ++ codes ")"

unfoldable pub denial : Text → Text
unfolding denial_reason
denial reason = fatal_auth (denial_reason reason)

-- What of an answer is in the buffer of 4096 bytes.
unfoldable pub buffered : Text → Text
buffered bytes = take 4096 bytes

unfoldable pub read_answer : Text → Result Text Text
unfolding denial
read_answer resp =
    if resp ≗ codes "NOCONF"
    then ok []
    else if has_prefix denied resp
    then err (denial (drop 7 resp))
    else ok resp

unfoldable pub request_config : Answer → Result Text Text
unfolding read_answer buffered
request_config (write_fails e) = err (codes "отправка GETCONF: " ++ e)
request_config (deadline_fails e) = err (codes "установка дедлайна: " ++ e)
request_config (read_fails e) = err (codes "чтение ответа конфига: " ++ e)
request_config (reads bytes) = read_answer (buffered bytes)
