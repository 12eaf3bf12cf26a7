-- ===== src/Fs/World.antt =====
-- A process and its surroundings: the volume, the clock, the random names and the process's retry
-- queue. Before each call to the system the surroundings have a turn, in which other processes may
-- change the volume, time passes, and the call may be made to fail. A copy that fails may have written a
-- part of the file before, so many bytes of it, and `create_dir_all` the outer directories, so many of the inner ones
-- and the innermost left out.
use i_tan_reclaim_space.Base.{ℕ, suc, Bytes, ◌+◌, List, [], ◌∷◌, Option, none, some}
use i_tan_reclaim_space.Base.Results.{Result, ok, err}
use i_tan_reclaim_space.Fs.State.{Fs, IoError}
use i_tan_reclaim_space.RetryJob.{RetryJob}

pub record Turn : Type 0 where
  pub fault : Option IoError
  pub written : Option ℕ
  pub other : Fs → Fs
  pub elapsed : ℕ

-- The target that the program is compiled for: Linux, Windows, or neither of these nor macOS.
pub data Platform : Type 0 where
  unix windows other : Platform

pub record World : Type 0 where
  pub os : Platform
  pub fs : Fs
  pub now : ℕ
  pub uuid : ℕ → Bytes
  pub next_uuid : ℕ
  pub queue : List RetryJob
  pub turns : List Turn

abbrev pub M : Type 0 → Type 0 → Type 0
M E A = World → Result E A × World

abbrev pub pure : {E A : Type 0} → A → M E A
pure a w = (ok a, w)

abbrev pub throw : {E A : Type 0} → E → M E A
throw e w = (err e, w)

abbrev continue : {E A B : Type 0} → Result E A × World → (A → M E B) → Result E B × World
continue (ok a, w) f = f a w
continue (err e, w) f = (err e, w)

-- A statement, then the rest; `?` on its result.
infixl 5 ◌>>=◌ ◌>>◌
unfoldable pub ◌>>=◌ : {E A B : Type 0} → M E A → (A → M E B) → M E B
◌>>=◌ m f w = continue (m w) f

abbrev pub ◌>>◌ : {E A B : Type 0} → M E A → M E B → M E B
m >> k = m >>= λ _. k

abbrev rewrap : {E F A : Type 0} → (E → F) → Result E A × World → Result F A × World
rewrap f (ok a, w) = (ok a, w)
rewrap f (err e, w) = (err (f e), w)

-- `Result::map_err`
unfoldable pub map_err : {E F A : Type 0} → (E → F) → M E A → M F A
map_err f m w = rewrap f (m w)

-- The result itself, to be matched on.
unfoldable pub attempt : {E F A : Type 0} → M E A → M F (Result E A)
attempt m w = let r = m w in (ok r.0, r.1)

-- The turn of the surroundings: what they make the call fail with, and the world that they leave.
unfoldable pub take_turn : List Turn → World → Option IoError × World
take_turn [] w = (none, w)
take_turn (t ∷ ts) w =
    (t.fault, record w { fs = t.other w.fs; now = w.now + t.elapsed; turns = ts })

abbrev pub perform :
    {A : Type 0}
    → (ℕ → Fs → Result IoError A × Fs)
    → Option IoError × World
    → Result IoError A × World
perform op (none, w) = let r = op w.now w.fs in (r.0, record w { fs = r.1 })
perform op (some e, w) = (err e, w)

-- A call to the system.
unfoldable pub syscall : {A : Type 0} → (ℕ → Fs → Result IoError A × Fs) → M IoError A
unfolding take_turn
syscall op w = perform op (take_turn w.turns w)

-- One that only reads.
unfoldable pub query : {A : Type 0} → (Fs → Result IoError A) → M IoError A
unfolding syscall
query op = syscall (λ now fs. (op fs, fs))

-- `SystemTime::now` and `Instant::now`
unfoldable pub clock : {E : Type 0} → M E ℕ
clock w = (ok w.now, w)

-- `Uuid::new_v4().simple()`
unfoldable pub new_uuid : {E : Type 0} → M E Bytes
new_uuid w = (ok (w.uuid w.next_uuid), record w { next_uuid = suc w.next_uuid })

-- The target platform.
unfoldable pub platform : {E : Type 0} → M E Platform
platform w = (ok w.os, w)

-- The same world with surroundings that neither interfere nor let a call fail.
abbrev pub calm : World → World
calm w = record w { turns = [] }
