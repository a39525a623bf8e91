-- ===== src/Lib.antt =====
-- RadixGates: a Go gateway in front of several SGLang servers, with Python scripts that check a
-- deployment, measure it, and collect its logs. This library is about the Python scripts.
--
-- The parts and the files that model them:
--
-- - Base: lists, ints, texts, dicts and decimal numbers of Python, over the native numbers. Python
--   and its children: exceptions as values (`Result`), what `except Exception` and `except OSError`
--   catch, decoded JSON and the subscripts that the scripts apply to it. Stats: `sorted`,
--   `statistics.median` and the 95th percentile.
-- - Ttft: `measure_ttft` and `benchmark_ttft`, which examples/pd_demo.py, examples/tp_demo.py and
--   examples/ep_demo.py have in the same words. A response is a `Stream` of lines with readings of
--   the clock; `read_stream` is the loop over `iter_lines()`, `line_event` its body.
-- - Throughput: `benchmark_throughput` of the same scripts and of examples/dp_demo.py. `single` is a
--   request, `collect` the loop over `as_completed`, which takes the results in any order.
-- - Demos: what each script adds to these: its prompts and bodies (Pd, Tp, Ep), the bodies and the
--   scaling estimate of dp_demo.py (Dp), the check of the gateway's /health (Gateway), and the
--   users of examples/enterprise_qa_demo.py (Qa), examples/streaming_demo.py (Streaming), and
--   `test_prefix_hash_routing` of dp_demo.py (Prefix).
-- - RealEngine: benchmarks/real_engine/run_real.py. `run_policy` sends the requests, with the
--   counter of the round-robin policy as a number that is passed on, `summarize` (RealEngine/Summary)
--   sums up the rows,
--   and RealEngine/Fleet has the processes and the git worktree of an experiment as a state
--   (`World`), with `main`'s `try` and `finally`.
--   RealEngine/Workload has the prompts and the random requests, and RealEngine/Pool the threads of
--   `run_policy` with their lock as a step relation, for every interleaving. `wait_http` is in
--   RealEngine/Wait, the gateway's configuration and the requests that prepare the workers in
--   RealEngine/Config, `prefill_counters` in RealEngine/Counters; RealEngine/Report composes them
--   with `run_policy` and `summarize` to the measurement of a run, and has the results by policy,
--   the CSV rows and the text of summary.md. RealEngine/Main joins the runs with the processes of
--   RealEngine/Fleet to `main`.
-- - Hardware: the readings of nvidia-smi in `check_gpu_memory` of tp_demo.py, ep_demo.py and
--   dp_demo.py (Hardware, Hardware/Spread) and in `print_hw_info` of examples/_log_utils.py
--   (Hardware/Tag).
-- - Logs: the rest of examples/_log_utils.py: the .env file, SSH_TARGET, and the files that the logs
--   of the containers are saved in (Logs/Save).
-- - Servers: the checks of the SGLang servers, `check_tp_active` of tp_demo.py (Servers/Tp),
--   `check_ep_active` and `check_alltoall_in_logs` of ep_demo.py (Servers/Ep, Servers/Scan) and
--   `check_all_nodes` of dp_demo.py (Servers/Dp), with the searches in a log file (Servers/Search),
--   whose patterns have a grammar in Servers/Search/Grammar.
-- - Plot: `per_second` of benchmarks/scripts/plot.py, and the reading of its files with what a
--   timeline shows (Plot/Load).
-- - LongContext: scripts/benchmark_long_context.py, its two requests, the loop over the contexts,
--   and the contexts with the text that makes each of them new (LongContext/Contexts).
-- - Script: what the `main` functions of the examples are made of, printed lines and calls of parts
--   (Script), `_Tee` with the console and the log file (Script/Tee), and the name of the log with the
--   time in it (Script/LogName).
-- - Mains: the `main` functions of the six examples over the models of the parts that they call
--   (Mains/Pd, Mains/Tp, Mains/Ep, Mains/Dp, Mains/Qa, Mains/Streaming).
-- - Tests: runs on small inputs, and the theorems at concrete data.
--
-- A text is a list of code points. Times are ints of a clock's ticks, so that sums and differences
-- are exact where the scripts add floats; where a float is rounded to an int, the comment at the
-- definition says for which sizes the result is the same. Numbers are unbounded, as in Python.
-- Loops run over lists or counts, so they end. Two have fuel: `show_by`, one more than the number,
-- which has fewer digits than that, and `wait_from`, twice the seconds and one more, since a turn
-- sleeps for half a second.
--
-- The HTTP exchanges, the decoding of bytes and of JSON, the clock, the shell, and what the host
-- does with processes are parameters: functions that the definitions take as arguments, of which
-- nothing is assumed but what a theorem's hypotheses say.
--
-- Not modelled: the gateway itself with its load generator and mock worker, which is written in Go;
-- what the parts of a script print on the way, beside the lines of `main` and what the models have
-- as results; a KeyboardInterrupt that does not arise in a request; of run_real.py the medians
-- of the float columns of the report, which are a parameter, and its progress lines; of plot.py the
-- drawing.
pub mod Base
pub mod Stats
pub mod Python
pub mod Ttft
pub mod Throughput
pub mod Demos
pub mod RealEngine
pub mod Hardware
pub mod Logs
pub mod Servers
pub mod Script
pub mod Mains
pub mod Plot
pub mod LongContext
mod Tests
