-- ===== src/Tests/Script.antt =====
-- The console and the log of a script, and the time in the log's name.
use radixgates.Base.{[], ◌∷◌, Str, lit, ◌≡◌, refl, arith}
use radixgates.Script.Tee.{Sink, write_all}
use radixgates.Script.Tee.Laws.{Follows, write_all-Follows}
use radixgates.Script.LogName.{Demo, log_path, time_in}
use radixgates.Script.LogName.Laws.{IsStamp, time_in-log_path}

abbrev console : Sink
console = record { text = []; room = 9 }

-- a disk that is full after one more write
abbrev log : Sink
log = record { text = []; room = 1 }

full :
    write_all (console ∷ log ∷ []) (lit "a" ∷ lit "b" ∷ [])
    ≡ record { text = lit "ab"; room = 7 } ∷ record { text = lit "a"; room = 0 } ∷ []
unfolding write_all
full = refl

write_all-Follows_example :
    (console' : Sink) × (log' : Sink) × (write_all (console ∷ log ∷ []) (lit "a" ∷ lit "b" ∷ [])
      ≡ console' ∷ log' ∷ [])
    × Follows log' console'
write_all-Follows_example =
    write_all-Follows (lit "a" ∷ lit "b" ∷ []) console log ([], refl, λ h. refl)

abbrev pub stamp : Str
stamp = lit "20250102_030405"

pub stamped : IsStamp stamp
stamped = ground arith

path : log_path Demo.pd (lit "/root/logs") stamp ≡ lit "/root/logs/pd_demo_20250102_030405.log"
unfolding log_path
path = refl

time_in-log_path_example : time_in Demo.pd (log_path Demo.pd (lit "/root/logs") stamp) ≡ stamp
time_in-log_path_example = time_in-log_path Demo.pd (lit "/root/logs") stamp stamped
