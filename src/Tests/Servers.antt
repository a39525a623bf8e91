-- ===== src/Tests/Servers.antt =====
-- Servers whose sizes stand in a log file, and nodes one of which is down.
use radixgates.Base.{◌≡◌, refl, ◌↔◌, Bool, false, List, [], ◌∷◌, Str, lit, some, true, is_space}
use radixgates.Base.Int.{ℤ, pos, ◌<ℤ◌}
use radixgates.Python.{ok, ◌>>=◌, os_error}
use radixgates.Python.Json.{Json, int}
use radixgates.Throughput.{Reply, lost, reply}
use radixgates.Servers.{Files, json_of, or_null}
use radixgates.Servers.Search.{search_size}
use radixgates.Servers.Search.Grammar.{Leftmost}
use radixgates.Servers.Search.Leftmost.{search_size_iff}
use radixgates.Servers.Tp.{args_size, info_size, check_tp_active}
use radixgates.Servers.Tp
use radixgates.Servers.Tp.Laws.{given, logged, check_tp_active-sources}
use radixgates.Servers.Ep.{EpReport, size_only, check_ep_active}
use radixgates.Servers.Dp.{Node}
use radixgates.Tests.Samples.{codec}

-- every log file has the arguments of the server
abbrev files : Files
files p = some (ok (lit "--tensor-parallel-size 4, ep_size=4"))

abbrev down : Reply
down = lost os_error

-- The first match of the second pattern stands before one of the first, and after a word with the
-- first in it.
abbrev arguments : Str
arguments = lit "http_size=9 Tensor-Parallel_Size: 4 tp_size=2"

arguments_size : search_size (lit "tp_size=") (lit "tensor") arguments ≡ some 4
unfolding search_size is_space
arguments_size = refl

search_size_iff_example :
    (search_size (lit "tp_size=") (lit "tensor") arguments ≡ some 4)
    ↔ Leftmost (lit "tp_size=") (lit "tensor") false arguments 4
search_size_iff_example = search_size_iff (lit "tp_size=") (lit "tensor") arguments 4

tp_active : check_tp_active codec down files [] down ≡ ok (true, int (pos 4))
unfolding check_tp_active search_size is_space
tp_active = refl

check_tp_active-sources_example :
    (confirmed : Bool) × (size : Json) × (size
      ≡ or_null
          (or_null (given (json_of codec down >>= args_size)) (logged files (Tp.log_candidates [])))
          (given (json_of codec down >>= info_size)))
    × (check_tp_active codec down files [] down ≡ ok (confirmed, size))
    × ((confirmed ≡ true) ↔ ((n : ℤ) × (size ≡ int n) × (pos 1 <ℤ n)))
check_tp_active-sources_example =
    check_tp_active-sources codec down down files [] refl refl (λ p. tt)

abbrev report : EpReport
report = record {
  ep_confirmed = true;
  sizes = record { ep = int (pos 4); tp = int (pos 4) };
  verdict = size_only;
}

ep_active : check_ep_active codec down files [] down ≡ ok report
unfolding check_ep_active search_size is_space
ep_active = refl

ep_active_reply : check_ep_active codec down files [] (reply 200 (lit "{direct}")) ≡ ok report
unfolding check_ep_active search_size is_space
ep_active_reply = refl

-- The second node is down.
abbrev nodes : List Node
nodes =
    record { health = reply 200 (lit "ok"); model_info = reply 200 (lit "{direct}") }
    ∷ record { health = down; model_info = down }
    ∷ []
