-- ===== src/Capability/Trial/Cleanup.antt =====
-- What a trial clone on Linux leaves behind, in a run in which no call fails and no other process interferes.
use i_tan_reclaim_space.Base.{
  ℕ, suc, ◌<◌, ◌≡◌, ◌≢◌, refl, sym, ap, ◌∙◌, Bytes, Bool, true, false, ◌++◌, none, length, take,
  drop, replicate, arith, ◌-◌,
}
use i_tan_reclaim_space.Base.Results.{Result, ok}
use i_tan_reclaim_space.Fs.Path.{FilePath}
use i_tan_reclaim_space.Fs.Table.{
  Table, find, erase, bind, find-bind_same, find-bind_other, erase_of_none, find-erase,
}
use i_tan_reclaim_space.Fs.State.{IoError, has_dir}
use i_tan_reclaim_space.Fs.World.{World, calm, new_uuid}
use i_tan_reclaim_space.Fs.Runs.{>>=-ok, attempt-eq}
use i_tan_reclaim_space.Fs.Runs.Files.{with_table, remove_file-calm, has_parent-cons}
use i_tan_reclaim_space.Fs.Runs.Handles.{
  created, rewritten, created_elsewhere, rewritten_elsewhere, file_create_fresh, file_open-calm,
  write_all-calm, flush-calm, set_len-calm,
}
use i_tan_reclaim_space.Capability.Trial.{
  System, succeeded, src_path, dst_path, write_sentinel, cleaned_up, clone_linux, cow_dry_run_linux,
}

-- ioctl_ficlone(2): it changes the content of the destination, if anything.
pub record IsFiclone (sys : System) : Type 0 where
  pub copies :
      (dst src : ℕ) (w : World)
      → (r : Result IoError (Unit {0})) × (content : Bytes) × (sys.ficlone dst src (calm w)
          ≡ (r, rewritten dst content w))

-- Two files made one after the other and removed again.
erased_both :
    (p q : FilePath) (i j : ℕ) (t : Table)
    → find p t ≡ none
    → find q t ≡ none
    → erase q (erase p (bind q j (bind p i t))) ≡ t
unfolding bind erase
erased_both p q i j t hp hq = ground (arith, erase_of_none p t hp, erase_of_none q t hq)

cleaned_up-calm :
    {E : Type 0} (src dst : FilePath) (i j : ℕ) (t : Table) (b : Bool) (v : World)
    → v.fs.table ≡ bind dst j (bind src i t)
    → find src t ≡ none
    → find dst t ≡ none
    → src ≢ dst
    → cleaned_up {E = E} src dst (ok b) (calm v) ≡ (ok b, with_table t v)
unfolding cleaned_up
cleaned_up-calm src dst i j t b v e hs hd ne =
    >>=-ok _ _ (calm v) _ without_src (
      attempt-eq _ (calm v) _ without_src (
        remove_file-calm src i v
          (ap (find src) e ∙ find-bind_other dst src j (bind src i t) ne ∙ find-bind_same src i t)))
    ∙ >>=-ok _ _ without_src _ without_both (
        attempt-eq _ without_src _ without_both
          (remove_file-calm dst j without_src (dst_left ∙ find-bind_same dst j (bind src i t))))
    ∙ ap (λ x. (ok b, with_table x v))
        (ap (λ x. erase dst (erase src x)) e ∙ erased_both src dst i j t hs hd)
  where
    without_src : World
    without_src = with_table (erase src v.fs.table) v

    without_both : World
    without_both = with_table (erase dst (erase src v.fs.table)) v

    dst_left : find dst (erase src v.fs.table) ≡ find dst (bind dst j (bind src i t))
    dst_left = ground (arith, find-erase src dst v.fs.table, e)

module _ (sys : System) (tmp_dir : FilePath) (w : World) where
  abbrev pub src : FilePath
  src = src_path tmp_dir (w.uuid w.next_uuid)

  abbrev pub dst : FilePath
  dst = dst_path tmp_dir (w.uuid (suc w.next_uuid))

  -- The names of the trial files are free and the directory is there.
  pub record CanTry : Type 0 where
    pub no_src : find src w.fs.table ≡ none
    pub no_dst : find dst w.fs.table ≡ none
    pub no_src_dir : has_dir src w.fs.dirs ≡ false
    pub no_dst_dir : has_dir dst w.fs.dirs ≡ false
    pub tmp_there : has_dir tmp_dir w.fs.dirs ≡ true

  -- The worlds after each step of the trial.
  abbrev pub named : World
  named = record w { next_uuid = suc (suc w.next_uuid) }

  abbrev pub sentinel : Bytes
  sentinel = replicate 4_096 0xCD

  abbrev pub with_src : World
  with_src =
      rewritten w.fs.next_ino
        (sentinel ++ drop (length sentinel) ((created src named).fs.inode w.fs.next_ino).content)
        (created src named)

  abbrev pub with_dst : World
  with_dst = created dst with_src

  abbrev pub grown : World
  grown =
      rewritten (suc w.fs.next_ino)
        (take 4_096 (with_dst.fs.inode (suc w.fs.next_ino)).content
          ++ replicate (4_096 - length (with_dst.fs.inode (suc w.fs.next_ino)).content) 0)
        with_dst

  -- How the clone went, between files that hold the sentinel and zeros.
  abbrev pub cloned : Result IoError (Unit {0})
  cloned = (sys.ficlone (suc w.fs.next_ino) w.fs.next_ino (calm grown)).0

  write_sentinel-calm : CanTry → write_sentinel src 0xCD (calm named) ≡ (ok tt, with_src)
  unfolding write_sentinel
  write_sentinel-calm c =
      >>=-ok _ _ (calm named) w.fs.next_ino (created src named) (
        file_create_fresh src named c.no_src c.no_src_dir
          (has_parent-cons _ tmp_dir w.fs ∙ c.tmp_there))
      ∙ >>=-ok _ _ (created src named) tt with_src
          (write_all-calm w.fs.next_ino sentinel (created src named))
      ∙ flush-calm w.fs.next_ino with_src

  dst_free : CanTry → find dst with_src.fs.table ≡ none
  dst_free c = find-bind_other src dst w.fs.next_ino w.fs.table (λ e. ground arith) ∙ c.no_dst

  clone_linux-calm :
      (content : Bytes)
      → CanTry
      → sys.ficlone (suc w.fs.next_ino) w.fs.next_ino (calm grown)
        ≡ (cloned, rewritten (suc w.fs.next_ino) content grown)
      → clone_linux sys src dst (calm named)
        ≡ (ok (succeeded cloned), rewritten (suc w.fs.next_ino) content grown)
  unfolding clone_linux
  clone_linux-calm content c e =
      >>=-ok _ _ (calm named) tt with_src (write_sentinel-calm c)
      ∙ >>=-ok _ _ with_src w.fs.next_ino with_src
          (file_open-calm src w.fs.next_ino with_src (find-bind_same src w.fs.next_ino w.fs.table))
      ∙ >>=-ok _ _ with_src (suc w.fs.next_ino) with_dst (
          file_create_fresh dst with_src (dst_free c) c.no_dst_dir
            (has_parent-cons _ tmp_dir with_src.fs ∙ c.tmp_there))
      ∙ >>=-ok _ _ with_dst tt grown (set_len-calm (suc w.fs.next_ino) 4_096 with_dst)
      ∙ >>=-ok _ _ grown cloned (rewritten (suc w.fs.next_ino) content grown)
          (attempt-eq _ grown cloned _ e)

  -- The world after the trial.
  abbrev pub left : Bytes → World
  left content = with_table w.fs.table (rewritten (suc w.fs.next_ino) content grown)

  untouched :
      (content : Bytes) (j : ℕ) → j < w.fs.next_ino → (left content).fs.inode j ≡ w.fs.inode j
  untouched content j l =
      rewritten_elsewhere (suc w.fs.next_ino) j content grown (omega (arith, l))
      ∙ rewritten_elsewhere (suc w.fs.next_ino) j
          (take 4_096 (with_dst.fs.inode (suc w.fs.next_ino)).content
            ++ replicate (4_096 - length (with_dst.fs.inode (suc w.fs.next_ino)).content) 0)
          with_dst (omega (arith, l))
      ∙ created_elsewhere dst j with_src (omega (arith, l))
      ∙ rewritten_elsewhere w.fs.next_ino j
          (sentinel ++ drop (length sentinel) ((created src named).fs.inode w.fs.next_ino).content)
          (created src named) l
      ∙ created_elsewhere src j named l

  -- On a volume where the names of the trial files are free, a trial clone on Linux leaves the names of the volume and
  -- its directories as they were, and every file as it was, and says whether the clone succeeded. The system's clone
  -- changes no file but its destination; in a run in which no other call fails and no other process interferes.
  pub cow_dry_run_linux-cleanup :
      {E : Type 0}
      → CanTry
      → IsFiclone sys
      → (v : World) × (cow_dry_run_linux sys {E = E} tmp_dir (calm w) ≡ (ok (succeeded cloned), v))
        × (v.fs.table ≡ w.fs.table)
        × (v.fs.dirs ≡ w.fs.dirs)
        × ((j : ℕ) → j < w.fs.next_ino → v.fs.inode j ≡ w.fs.inode j)
  unfolding cow_dry_run_linux new_uuid
  cow_dry_run_linux-cleanup c law =
      let (r, content, e) = law.copies (suc w.fs.next_ino) w.fs.next_ino grown in
      (
        left content,
        >>=-ok _ _ (calm w) (w.uuid w.next_uuid) (calm (record w { next_uuid = suc w.next_uuid }))
              refl
            ∙ >>=-ok _ _ (calm (record w { next_uuid = suc w.next_uuid }))
                (w.uuid (suc w.next_uuid)) (calm named) refl
            ∙ >>=-ok _ _ (calm named) (ok (succeeded cloned))
                (rewritten (suc w.fs.next_ino) content grown)
                (attempt-eq _ (calm named) _ _ (
                  clone_linux-calm content c (
                    e
                    ∙ ap (λ x. (x, rewritten (suc w.fs.next_ino) content grown))
                        (sym (ap (λ x. x.0) e)))))
            ∙ cleaned_up-calm src dst w.fs.next_ino (suc w.fs.next_ino) w.fs.table
                (succeeded cloned) (rewritten (suc w.fs.next_ino) content grown) refl c.no_src
                c.no_dst (λ e. ground arith),
        refl,
        refl,
        untouched content,
      )
