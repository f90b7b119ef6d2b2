-- ===== src/Examples/World.antt =====
-- A small repository, in a world where every call succeeds.
use Prim.Native.String.{◌++◌ as str_append}
use redrill.Prelude.{true, false, none, some, [], ◌∷◌, length}
use redrill.Prelude.Int.{pos}
use redrill.Config.{L2, L3, Check}
use redrill.Checks.{Status, got, broke}
use redrill.Checks.Expect.{Reader}
use redrill.Checks.Tree.{Tree, exited}
use redrill.Sandbox.{Runtime, running}
use redrill.Examples.{demo_l2}
use redrill.Examples.Exec.{plain_texts, l1_step}
use redrill.Exec.Step.{StepSpec, StepResult, StepReply}
use redrill.Exec.Stage.{Bytes, Files}
use redrill.Exec.World.{World, Vault, DumpDir}

abbrev pub plain_reader : Reader
plain_reader = record {
  is_float = λ s. true;
  rat = λ s. some (record { num = pos 1; den_less_one = 0 });
  duration = λ s. none;
  compiles = λ s. true;
  matches = λ p s. true;
  time = λ l s. some 1000000000000;
  quote = λ s. s;
  rounded = λ d. "d";
}

-- A dump of a few bytes that is not compressed.
abbrev pub dump_bytes : Bytes
dump_bytes = 45 ∷ 45 ∷ 32 ∷ 10 ∷ []

abbrev pub plain_files : Files
plain_files = record {
  read = λ p. got dump_bytes;
  seek_error = none;
  create_error = none;
  reopen_error = none;
  gunzip = λ b. broke "not gzip";
  unzstd = λ b. broke "not zstd";
  plain = λ b. record { chunks = b ∷ []; fault = none };
  disk = λ file p. (length p, none);
  base = λ p. p;
}

abbrev pub two_files : Tree
two_files = record {
  exists = λ p. got true;
  entries =
      record {
        fault = none;
        is_dir = false;
        is_regular = true;
        name = "a.txt";
        rel = got "a.txt";
        info = got (pos 10, 7);
        entropy = got (false, "4.00");
      }
      ∷ [];
  shell = λ c. exited 0 "";
  hash = λ p. got "";
}

abbrev pub demo_world : World
demo_world = record {
  texts = plain_texts;
  load_texts = record {
    loaded = λ n. "loaded";
    ignored = λ e n. "loaded";
    could_not_run = λ l e s. s;
    rejected = λ e s. s;
    incomplete = λ e s. s;
  };
  reader = plain_reader;
  redaction = record { looks_secret = λ n. false; replace = λ pairs s. s };
  lower = λ s. s;
  version_in = λ s. none;
  lines = λ b. [];
  files = plain_files;
  join = λ a b. str_append a (str_append "/" b);
  mkdir_error = λ p. none;
  remove_error = λ log p. none;
  free_bytes = λ p. got 1000;
  of_time = λ t. "t";
  tree_texts = record {
    of_texts = plain_texts;
    exit = λ n. "exit";
    within_pct = λ c p n. true;
    of_delta = λ c p. "delta";
    lower = λ s. s;
    of_anomaly = λ f t e. e;
    of_example = λ r b. r;
  };
  match_one = λ p s. some true;
  permutation = λ seed n. [];
  tree = λ log p. two_files;
}

abbrev pub good_vault : Vault
good_vault = record {
  secret_error = none;
  secrets = "hunter2" ∷ [];
  validate_error = none;
  snapshots = got (record { id = "monday"; time = 5; size = pos 10 } ∷ []);
  list_files = λ id. got [];
  full_size = λ id. pos 10;
  restore = λ ids paths dir. none;
  mount = λ id dir. got dir;
  unmount = λ log. none;
}

abbrev pub dump_dir : DumpDir
dump_dir = record {
  validate_error = none;
  snapshots = got [];
  path = λ id. id;
  stat = λ id. broke "gone";
  restore = λ ids dir. none;
  quoted = "*";
}

-- A container in which every command succeeds.
abbrev pub good_runtime : Runtime
good_runtime = record {
  start = λ log spec. running (some "c1");
  exec = λ log cmd. got (record { stdout = ""; stderr = ""; exit_code = 0 });
  close = λ log. none;
}

abbrev pub some_check : Check
some_check = record {
  kind = "sql_no_error";
  path = "";
  hash_match = false;
  newest_file_max_age = pos 0;
  file_count_tolerance_pct = pos 0;
  min_total_bytes = pos 5;
  sql = none;
  sql_no_error = "select 1";
  exec = "";
  file_count = none;
  tcp_port = pos 0;
  entropy_anomaly = false;
}

abbrev pub demo_l3 : L3
demo_l3 = record {
  extract_path = "db.sql";
  sandbox = record {
    image = "postgres:16";
    env = [];
    network = "";
    memory = pos 0;
    timeout = pos 0;
  };
  load = "";
  checks = some_check ∷ [];
}

abbrev pub l3_step : StepSpec
l3_step = record l1_step { level = "l3"; l3 = some demo_l3 }

abbrev pub checked_l2 : L2
checked_l2 = record demo_l2 { checks = record some_check { kind = "min_total_bytes" } ∷ [] }

abbrev pub l2_step : StepSpec
l2_step = record l1_step {
  level = "l2";
  l2 = some checked_l2;
  scratch = record { dir = "/tmp"; max_bytes = pos 20 };
}

abbrev pub result_of : StepReply → StepResult
result_of (StepReply.done res) = res
result_of _ = record {
  level = "";
  status = Status.error;
  evidence = [];
  summary = "";
  files = pos 0;
  bytes = pos 0;
  snapshot = "";
  snapshot_time = 0;
  kept_sandbox = "";
}
