-- ===== src/Tests/Mains.antt =====
-- Two machines: one whose first benchmark is interrupted, and one whose gateway is down.
use radixgates.Base.{[], ◌∷◌, lit, none, false, ◌≡◌, refl}
use radixgates.Base.Int.{pos}
use radixgates.Python.{ok, raise, os_error, missing_file, interrupt, exit}
use radixgates.Ttft
use radixgates.Throughput.{lost, reply}
use radixgates.Script.{Part}
use radixgates.Script.Laws.{parts}
use radixgates.Mains.{Host, Gpus, Server, Bench}
use radixgates.Logs.Save.{save_container_logs}
use radixgates.Mains.Tp
use radixgates.Tests.Samples.{codec}
use radixgates.Tests.Script.{stamp}

-- No docker and no SSH_TARGET, so no logs are collected.
abbrev host : Host
host = record {
  codec = codec;
  gateway_url = lit "http://localhost:8080";
  health = reply 200 (lit "{direct}");
  log_dir = lit "/root/logs";
  stamp = stamp;
  shell = λ command. raise os_error;
  opens = λ path. ok tt;
  docker = false;
  docker_info = ok 0;
  env_file = none;
  env = [];
}

abbrev gpus : Gpus
gpus = record {
  names = raise missing_file;
  topo = raise missing_file;
  before = raise missing_file;
  after = raise missing_file;
}

abbrev server : Server
server = record {
  args = lost os_error;
  info = lost os_error;
  files = λ p. none;
  sglang_log = [];
  docker_logs = raise missing_file;
  show = λ v. [];
}

-- The user ends the first request.
abbrev bench : Bench
bench = record {
  ttft = λ n body. (pos 0, Ttft.broken interrupt);
  load = λ i body. record { sent = pos 0; received = pos 1; result = lost os_error };
  wall = pos 5;
  order = 0 ∷ [];
}

interrupted : (Tp.main host gpus server bench).1 ≡ ok tt
unfolding Tp.main Ttft.measure_ttft Ttft.benchmark_ttft save_container_logs
interrupted = refl

interrupted_parts :
    parts (Tp.main host gpus server bench).0
    ≡ Part.hardware ∷ Part.gateway ∷ Part.parallel ∷ Part.memory ∷ Part.ttft ∷ Part.memory
      ∷ Part.logs ∷ []
unfolding Tp.main Ttft.measure_ttft Ttft.benchmark_ttft save_container_logs
interrupted_parts = refl

abbrev cut_off : Host
cut_off = record host { health = lost os_error }

no_gateway : (Tp.main cut_off gpus server bench).1 ≡ raise exit
unfolding Tp.main
no_gateway = refl

-- The shell works, so that the logs of the containers could be saved.
abbrev working : Host
working = record host { shell = λ command. ok [] }
