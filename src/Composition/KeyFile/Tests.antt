-- ===== src/Composition/KeyFile/Tests.antt =====
-- A run of the main loop of packages/c/sshnpd/src/daemon.c that adds a key, and the theorem at it.
use zettahealthonramp.Base.{
  ◌≡◌, refl, ◌⊎◌, true, some, [], ◌∷◌, ◌++◌, Text, codes, Any, str_eq, strncmp, ok,
}
use zettahealthonramp.SshPublicKey.{some_prefix, is_valid_prefix}
use zettahealthonramp.AuthorizedKeys.{
  lines, until_nul, some_line, ends_line, append_entry, authorize_ssh_public_key,
  handle_sshpublickey,
}
use zettahealthonramp.AuthorizedKeys.Tests.{file_answers, one_key}
use zettahealthonramp.Daemon.{
  key_of_name, strip, strstr, tail_of, name_at, notification_name, dispatch, handle_notification,
  count_message, act_on, round, Config, notification, Notification,
}
use zettahealthonramp.Composition.Loop.{handling, answers}
use zettahealthonramp.Composition.Strangers.{request_of, request_turn, begun}
use zettahealthonramp.Composition.KeyFile.{actions_file, daemon_file, FileTurn}
use zettahealthonramp.Composition.KeyFile.Grown.{daemon_file-keeps, AddsKey}

abbrev key_config : Config
key_config = record {
  device = codes "pi4";
  local_sshd_port = 22;
  managers = codes "@boss" ∷ [];
  permits = [];
  monitor_regex = codes "pi4.sshnp@";
}

abbrev key_received : Notification
key_received = record (request_of (codes "pi4") (codes "@a")) {
  key = codes "@dev:sshpublickey.pi4.sshnp@a";
}

abbrev key_turn : FileTurn
key_turn = record {
  turn = record (request_turn (codes "pi4") (codes "@a")) {
    message = notification key_received;
    decrypted_value = some (codes "ssh-rsa B");
  };
  file = file_answers;
}

abbrev grown : Text
grown = one_key ++ codes "ssh-rsa B" ++ b'\n' ∷ []

-- The second request finds its key in the file.
key_added_once : daemon_file key_config [] true begun (key_turn ∷ key_turn ∷ []) one_key ≡ ok grown
unfolding daemon_file actions_file answers handling round count_message act_on handle_notification
    notification_name strstr strip tail_of name_at dispatch key_of_name str_eq handle_sshpublickey
    is_valid_prefix some_prefix strncmp authorize_ssh_public_key append_entry ends_line some_line
    lines until_nul
key_added_once = refl

daemon_file-keeps_example :
    (rest : Text) × (grown ≡ one_key ++ rest)
    × ((rest ≡ []) ⊎ ((true ≡ true) × Any (AddsKey key_config) (key_turn ∷ key_turn ∷ [])))
daemon_file-keeps_example =
    daemon_file-keeps key_config [] true begun (key_turn ∷ key_turn ∷ []) one_key grown
      key_added_once
