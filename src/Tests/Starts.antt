-- ===== src/Tests/Starts.antt =====
-- Starts of the process: a file of secrets, the configuration and NATS.
use cali_go_stack.Base.{
  ◌≡◌, refl, ◌++◌, true, false, none, some, List, [], ◌∷◌, codes, bytes_eq, if◌then◌else◌,
  occurs-Without,
}
use cali_go_stack.Queue.Chan.{Bytes}
use cali_go_stack.Secrets.{newline, equals, EnvLine, Env, Machine, parse_env_lines, decrypted}
use cali_go_stack.Secrets.Lines.{
  Written, entry, comment, blank, IsPlain, AllWritable, written, entries, parse_env_lines-written,
}
use cali_go_stack.Secrets.Export.{last_value}
use cali_go_stack.Config.Load.{load}
use cali_go_stack.Config.Load.Fields.{load-file_or_env}
use cali_go_stack.Nats.Connection.{Answers, no_singletons, start_nats, wait_for_jetstream, polled}
use cali_go_stack.Nats.Connection.Failed.{half_started}

abbrev admin : EnvLine
admin = record { key = codes "ADMIN_UNLOCK_TOKEN"; value = codes "s3" }

admin-IsPlain : IsPlain admin
admin-IsPlain = record {
  key_filled = refl;
  key_line = occurs-Without newline admin.key refl;
  key_equals = occurs-Without equals admin.key refl;
  key_trimmed = (refl, refl);
  key_comment = refl;
  value_line = occurs-Without newline admin.value refl;
  value_trimmed = (refl, refl);
}

abbrev file : List Written
file = comment (codes " keys") ∷ blank ∷ entry admin ∷ []

file-AllWritable : AllWritable file
file-AllWritable = (occurs-Without newline (codes " keys") refl, (tt, (admin-IsPlain, tt)))

parse_env_lines-written_example : parse_env_lines (written file) ≡ admin ∷ []
unfolding entries
parse_env_lines-written_example = parse_env_lines-written file file-AllWritable

-- The identity is the key; the file is there under any name, and is not sealed.
abbrev open_machine : Machine
open_machine = record {
  Identity = Bytes;
  home = some (codes "/root");
  secrets_file = λ home name. home ++ name;
  read_file = λ path. some (written file);
  parse_identity = λ key. some key;
  decrypt = λ sealed identity. some sealed;
}

abbrev host : Env
host key =
    if bytes_eq key (codes "AGE_SECRET_KEY")
    then some (codes "k")
    else if bytes_eq key (codes "ADMIN_UNLOCK_TOKEN")
    then some (codes "old")
    else if bytes_eq key (codes "APP_NAME")
    then some (codes "app")
    else none

load-file_or_env_example : (load open_machine none host).0.admin_token ≡ codes "s3"
unfolding last_value entries decrypted
load-file_or_env_example =
    (load-file_or_env open_machine none host file refl refl refl file-AllWritable (refl, tt)).1

-- The server starts, and JetStream does not serve in time.
abbrev slow : Answers
slow = record {
  url_ok = true;
  new_server = some 1;
  connect = some 2;
  context = some 3;
  ready = true;
  first_info = false;
  account_info = false ∷ false ∷ [];
}

half_started_example :
    ((start_nats true false slow no_singletons).0 ≡ none)
    × ((start_nats true false slow no_singletons).1.connection ≡ some 2)
    × ((start_nats true false slow no_singletons).1.jetstream ≡ some 3)
unfolding wait_for_jetstream polled
half_started_example = half_started false slow no_singletons 2 3 1 refl refl refl
