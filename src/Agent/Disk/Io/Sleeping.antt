-- ===== src/Agent/Disk/Io/Sleeping.antt =====
-- agent/disk.go: the disks that may sleep while their usage is cached.
use homemonit.Base.{
  ℕ, String, true, ◌≡◌, inl, inr, refl, Option, [], ◌∷◌, string_key, nat_key, All, FloatOps,
  Bool-cases, arith,
}
use homemonit.Records.Stats.{Stats}
use homemonit.Agent.Disk.Discovery.{FsTable, UsageStat}
use homemonit.Agent.Disk.Io.{DiskState, usage_rounds, cache_extra_fs, update_disk_usage, root_usage}

module _ (o : FloatOps) where
  -- The roots of a table answer the same.
  abbrev pub SameRoots :
      (String → Option UsageStat) → (String → Option UsageStat) → FsTable → Type 0
  SameRoots usage usage' =
      All (λ entry. entry.1.root ≡ true → usage entry.1.mountpoint ≡ usage' entry.1.mountpoint)

  usage_rounds-sleeping :
      (usage usage' : String → Option UsageStat) (t : FsTable) (s : Stats)
      → SameRoots usage usage' t
      → usage_rounds o usage true t s ≡ usage_rounds o usage' true t s
  unfolding usage_rounds
  usage_rounds-sleeping usage usage' [] s h = refl
  usage_rounds-sleeping usage usage' ((name, fs) ∷ rest) s h = elim (Bool-cases fs.root) [
    | inl root ↦
        let same = h.0 root in
        let later =
          usage_rounds-sleeping usage usage' rest (root_usage o (usage' fs.mountpoint) fs s) h.1 in
        ground (arith, root, same, later)
    | inr extra ↦
        let later = usage_rounds-sleeping usage usage' rest s h.1 in ground (arith, extra, later)
  ]

  -- While the usage of the extra file systems is cached, an update asks for the roots only: what the
  -- others would answer changes nothing.
  pub update_disk_usage-sleeping :
      (usage usage' : String → Option UsageStat) (now : ℕ) (a : DiskState) (s : Stats)
      → cache_extra_fs o now a ≡ true
      → SameRoots usage usage' a.fs_stats
      → update_disk_usage o usage now a s ≡ update_disk_usage o usage' now a s
  unfolding update_disk_usage
  update_disk_usage-sleeping usage usage' now a s cached h =
      rw (cached, usage_rounds-sleeping usage usage' a.fs_stats s h) refl
