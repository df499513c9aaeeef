-- ===== src/Sync/Wire.antt =====
-- What the file client expects of a channel that works: what it writes goes out, and what it reads is
-- what came in, in order.
use adb_server_project.Common.{ℕ, ◌≤◌, ◌≡◌, refl, List, ◌++◌, some, take, drop, length}
use adb_server_project.Common.Exec.{Exec}
use adb_server_project.Packet.{Status, success}
use adb_server_project.Sync.{SyncChannel, attempt, attempt_read, attempt_append}

-- A call that succeeds goes on with its state.
pub attempt_success :
    {S A : Type 0} (m : Exec S Status) (bad good : Exec S A) (s : S) {s' : S}
    → m s ≡ some (success, s')
    → attempt m bad good s ≡ good s'
attempt_success m bad good s e = rw (e, attempt) refl

pub attempt_read_success :
    {S A : Type 0} (m : Exec S (Status × List ℕ)) (bad : Exec S A) (good : List ℕ → Exec S A)
    (s : S)
    → {bytes : List ℕ} {s' : S} → m s ≡ some ((success, bytes), s')
    → attempt_read m bad good s ≡ good bytes s'
attempt_read_success m bad good s e = rw (e, attempt_read) refl

pub attempt_append_success :
    {S A : Type 0} (m : Exec S (Status × List ℕ)) (bad good : List ℕ → Exec S A) (s : S)
    → {bytes : List ℕ} {s' : S} → m s ≡ some ((success, bytes), s')
    → attempt_append m bad good s ≡ good bytes s'
attempt_append_success m bad good s e = rw (e, attempt_append) refl

module _ (S : Type 0) (C : SyncChannel S) where
  -- A channel that works as long as `Ready` holds; `sent` is what the device has got, `incoming` what
  -- it has sent and the client has not read.
  pub record IsWire : Type 1 where
    pub Ready : S → Type 0
    pub sent : S → List ℕ
    pub incoming : S → List ℕ
    pub writes :
        (bytes : List ℕ) (s : S)
        → Ready s
        → (s' : S) × (C.write bytes s ≡ some (success, s'))
          × Ready s'
          × (sent s' ≡ sent s ++ bytes)
          × (incoming s' ≡ incoming s)
    pub reads :
        (n w : ℕ) (s : S)
        → Ready s
        → n ≤ length (incoming s)
        → (s' : S) × (C.read n w s ≡ some ((success, take n (incoming s)), s'))
          × Ready s'
          × (sent s' ≡ sent s)
          × (incoming s' ≡ drop n (incoming s))
    pub reads_to_buffer :
        (n : ℕ) (s : S)
        → Ready s
        → n ≤ length (incoming s)
        → (s' : S) × (C.read_to_buffer n s ≡ some ((success, take n (incoming s)), s'))
          × Ready s'
          × (sent s' ≡ sent s)
          × (incoming s' ≡ drop n (incoming s))
