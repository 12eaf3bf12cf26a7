-- ===== src/Fs/Ensures/Calls.antt =====
-- What each call to the system keeps.
use i_tan_reclaim_space.Base.{ℕ, refl, [], Option, none, some}
use i_tan_reclaim_space.Fs.Path.{Name, FilePath}
use i_tan_reclaim_space.Fs.State.{Fs, IoError, rename_op, link_op, remove_op, chmod_op, mkdir_op}
use i_tan_reclaim_space.Fs.World.{World, take_turn, clock, new_uuid, platform}
use i_tan_reclaim_space.Fs.Calls.{
  metadata, exists, is_dir, read_dir, next_entry, read, rename, hard_link, remove_file,
  set_permissions, create_dir_all, written_first, made_or_cut,
}
use i_tan_reclaim_space.Fs.Ensures.Logic.{
  Ensures, Keeps, Holds, Inv, Since, Holds-Unit, take_turn-Inv, take_turn-Since, syscall-Ensures,
  syscall-Keeps, query-Keeps,
}

module _ {P : Fs → Type 0} where
  pub metadata-Keeps : (p : FilePath) → Keeps P (metadata p)
  unfolding metadata
  metadata-Keeps p = query-Keeps _

  pub exists-Keeps : {E : Type 0} (p : FilePath) → Keeps {E = E} P (exists p)
  unfolding exists
  exists-Keeps p = record {
    run = λ w i. (((metadata-Keeps p).run w i).0, tt);
    since = (metadata-Keeps p).since;
  }

  pub is_dir-Keeps : {E : Type 0} (p : FilePath) → Keeps {E = E} P (is_dir p)
  unfolding is_dir
  is_dir-Keeps p = record {
    run = λ w i. (((metadata-Keeps p).run w i).0, tt);
    since = (metadata-Keeps p).since;
  }

  pub read_dir-Keeps : (p : FilePath) → Keeps P (read_dir p)
  unfolding read_dir
  read_dir-Keeps p = query-Keeps _

  pub next_entry-Keeps : (n : Name) → Keeps P (next_entry n)
  unfolding next_entry
  next_entry-Keeps n = query-Keeps _

  pub read-Keeps : (p : FilePath) → Keeps P (read p)
  unfolding read
  read-Keeps p = query-Keeps _

  pub rename-Keeps :
      (src dst : FilePath)
      → ((fs : Fs) → P fs → P (rename_op src dst fs).1)
      → Keeps P (rename src dst)
  unfolding rename
  rename-Keeps src dst h = syscall-Keeps (λ now. rename_op src dst) (λ now. h)

  pub hard_link-Keeps :
      (src dst : FilePath)
      → ((fs : Fs) → P fs → P (link_op src dst fs).1)
      → Keeps P (hard_link src dst)
  unfolding hard_link
  hard_link-Keeps src dst h = syscall-Keeps (λ now. link_op src dst) (λ now. h)

  pub hard_link-Ensures :
      {Q : Unit {0} → Type 0} (src dst : FilePath)
      → ((fs : Fs) → P fs → P (link_op src dst fs).1 × Holds Q (link_op src dst fs).0)
      → Ensures P Q (hard_link src dst)
  unfolding hard_link
  hard_link-Ensures src dst h = syscall-Ensures (λ now. link_op src dst) (λ now. h)

  pub remove_file-Keeps :
      (p : FilePath) → ((fs : Fs) → P fs → P (remove_op p fs).1) → Keeps P (remove_file p)
  unfolding remove_file
  remove_file-Keeps p h = syscall-Keeps (λ now. remove_op p) (λ now. h)

  pub set_permissions-Keeps :
      (p : FilePath) (mode : ℕ)
      → ((fs : Fs) → P fs → P (chmod_op p mode fs).1)
      → Keeps P (set_permissions p mode)
  unfolding set_permissions
  set_permissions-Keeps p mode h = syscall-Keeps (λ now. chmod_op p mode) (λ now. h)

  pub create_dir_all-Keeps :
      (p : FilePath)
      → ((q : FilePath) (fs : Fs) → P fs → P (mkdir_op q fs).1)
      → Keeps P (create_dir_all p)
  unfolding create_dir_all
  create_dir_all-Keeps p h = record {
    run = λ w i. (
      step (written_first w.turns) (take_turn w.turns w) (take_turn-Inv P w.turns w refl i),
      Holds-Unit (create_dir_all p w).0,
    );
    since = λ w i.
        rest w (written_first w.turns) (take_turn w.turns w) (take_turn-Since w.turns w refl);
  }
    where
      rest :
          (v : World) (part : Option ℕ) (r : Option IoError × World)
          → Since r.1 v
          → Since (made_or_cut p part r).1 v
      rest v part (none, w) s = s
      rest v none (some e, w) s = s
      rest v (some k) (some e, w) s = s

      step :
          (part : Option ℕ) (r : Option IoError × World)
          → Inv P r.1
          → Inv P (made_or_cut p part r).1
      step part (none, w) i = (h p w.fs i.0, i.1)
      step none (some e, w) i = i
      step (some k) (some e, w) i = (h _ w.fs i.0, i.1)

  pub clock-Keeps : {E : Type 0} → Keeps {E = E} P clock
  unfolding clock
  clock-Keeps = record { run = λ w i. (i, tt); since = λ w i. (([], refl), refl) }

  pub new_uuid-Keeps : {E : Type 0} → Keeps {E = E} P new_uuid
  unfolding new_uuid
  new_uuid-Keeps = record { run = λ w i. (i, tt); since = λ w i. (([], refl), refl) }

  pub platform-Keeps : {E : Type 0} → Keeps {E = E} P platform
  unfolding platform
  platform-Keeps = record { run = λ w i. (i, tt); since = λ w i. (([], refl), refl) }
