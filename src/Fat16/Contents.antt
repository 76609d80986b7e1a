-- ===== src/Fat16/Contents.antt =====
-- kernel/fat16.c: writing the contents of a file into new clusters.
use aioperatingsystem.Common.{
  ℕ, zero, suc, ◌*◌, ◌≡◌, ◌⊎◌, refl, sym, ◌∙◌, ap, subst, inl, inr, true, false, List, [], ◌∷◌,
  arith, length, take, drop, ◌==◌, if◌then◌else◌,
}
use aioperatingsystem.Fat16.{Volume, eoc_min, cluster_to_lba, fat_read_entry}
use aioperatingsystem.Fat16.Chain.{extend_cluster_chain}
use aioperatingsystem.Fat16.Files.{WriteResult, no_room, written, write_sectors, write_clusters}
use aioperatingsystem.Fat16.Sectors.{Holds-take, write_sectors_lem}
use aioperatingsystem.Fat16.Clusters.{
  IsVolume, IsData, with_sectors-IsVolume, data_lba, data_lba-bound, cluster_to_lba_lem, same_table,
}
use aioperatingsystem.Fat16.Extend.{IsLast, with_hint, AllTaken, Extended, extend_cluster_chain_lem}
use aioperatingsystem.Fat16.Written.{start_of, Stored, Step, entry_of_new, Stored-cons}

-- The new cluster with its sectors written.
abbrev Stepped : Volume → ℕ → List ℕ → ℕ × Volume → Type 0
Stepped v last bytes r =
    (c : ℕ) × (s1 s2 : ℕ → List ℕ) × (hint : ℕ) × (r ≡ (c, with_hint v s1 hint))
    × (write_sectors (with_hint v s1 hint) (cluster_to_lba (with_hint v s1 hint) c)
          v.bpb.sectors_per_cluster (take (v.bpb.sectors_per_cluster * 512) bytes)
        ≡ (true, with_hint v s2 hint))
    × Step v last bytes c s2 hint

stepped_lem :
    (v : Volume) (last : ℕ) (bytes : List ℕ) (r : ℕ × Volume)
    → Extended v last r
    → Stepped v last bytes r
stepped_lem v last bytes r (c, s1, hint, is_r, h1, here, free, table1, kept1) =
    let spc = v.bpb.sectors_per_cluster in
    let v1 = with_hint v s1 hint in
    let (s2, run2, whole2, same2, holds2) =
      write_sectors_lem spc (data_lba v c) (take (spc * 512) bytes) v1 h1.fat
        (omega (arith, data_lba-bound v1 c h1 here)) in
    (
      c,
      s1,
      s2,
      hint,
      is_r,
      ap (λ (t : ℕ). write_sectors v1 t spc (take (spc * 512) bytes))
            (cluster_to_lba_lem v1 c h1 here)
          ∙ run2,
      record {
        volume = with_sectors-IsVolume v1 s2 h1 whole2;
        here = here;
        free = free;
        table = λ d there.
            same_table v1 s2 h1 (λ l below. same2 l (inl (omega arith))) d there ∙ table1 d there;
        contents = Holds-take s2 (data_lba v c) spc bytes holds2;
        kept = λ l ge out. same2 l out ∙ kept1 l ge out;
      },
    )

next_round :
    (v v1 v2 : Volume) (n first last : ℕ) (bytes : List ℕ) (c : ℕ)
    → (c == 0) ≡ false
    → extend_cluster_chain v last ≡ (c, v1)
    → write_sectors v1
        (cluster_to_lba v1 c)
        v1.bpb.sectors_per_cluster
        (take (v.bpb.sectors_per_cluster * 512) bytes)
      ≡ (true, v2)
    → write_clusters v (suc n) first last bytes
      ≡ write_clusters v2 n
          (if first == 0 then c else first)
          c
          (drop (v.bpb.sectors_per_cluster * 512) bytes)
unfolding write_clusters
next_round v v1 v2 n first last bytes c nonzero extended stored =
    rw (extended, nonzero, stored) refl

no_round :
    (v : Volume) (n first last : ℕ) (bytes : List ℕ)
    → extend_cluster_chain v last ≡ (0, v)
    → write_clusters v (suc n) first last bytes ≡ (no_room first, v)
unfolding write_clusters
no_round v n first last bytes full = rw full refl

start_of-cons :
    (first c : ℕ) (cs : List ℕ)
    → (c == 0) ≡ false
    → start_of (if first == 0 then c else first) cs ≡ start_of first (c ∷ cs)
start_of-cons first c [] h = refl
start_of-cons first c (d ∷ cs) h = ground (arith, h)

-- How the loop over the clusters ends.
abbrev pub Ended : Volume → (n first last : ℕ) → List ℕ → WriteResult × Volume → Type 0
Ended v n first last bytes r =
    ((f : ℕ) × (w : Volume) × (r ≡ (no_room f, w)) × AllTaken w)
    ⊎ ((cs : List ℕ) × (s : ℕ → List ℕ) × (hint : ℕ) × (r
          ≡ (written (start_of first cs), with_hint v s hint))
        × (length cs ≡ n)
        × Stored v last bytes cs (with_hint v s hint))

pub write_clusters_lem :
    (n first last : ℕ) (bytes : List ℕ) (v : Volume)
    → IsVolume v
    → IsLast v last
    → (IsData v last → fat_read_entry v last ≡ eoc_min)
    → Ended v n first last bytes (write_clusters v n first last bytes)
write_clusters_lem zero first last bytes v h is_last at_end = inr (
  [],
  v.sectors,
  v.next_free_cluster_hint,
  unfold write_clusters in refl,
  refl,
  record {
    volume = h;
    fresh = tt;
    chain = refl;
    linked = at_end;
    contents = tt;
    table_kept = λ d there used ne. refl;
    sectors_kept = λ d k there used small. refl;
  },
)
write_clusters_lem (suc n) first last bytes v h is_last at_end =
    elim (extend_cluster_chain_lem v last h is_last) [
      | inl (full, taken) ↦ inl (first, v, no_round v n first last bytes full, taken)
      | inr extended ↦
          let (c, s1, s2, hint, run1, run2, step) =
            stepped_lem v last bytes (extend_cluster_chain v last) extended in
          let nonzero : (c == 0) ≡ false = ground (arith, step.here) in
          let round =
            next_round v (with_hint v s1 hint) (with_hint v s2 hint) n first last bytes c nonzero
              run1 run2 in
          subst (Ended v (suc n) first last bytes) (sym round) (
            one_more v n first last bytes c s2 hint step is_last at_end nonzero (
              write_clusters_lem n (if first == 0 then c else first) c
                (drop (v.bpb.sectors_per_cluster * 512) bytes) (with_hint v s2 hint) step.volume
                (inr step.here) (λ there. entry_of_new step is_last at_end)))
    ]
  where
    one_more :
        (v : Volume) (n first last : ℕ) (bytes : List ℕ) (c : ℕ) (s2 : ℕ → List ℕ) (hint : ℕ)
        → (step : Step v last bytes c s2 hint) → IsLast v last
        → (IsData v last → fat_read_entry v last ≡ eoc_min)
        → (c == 0) ≡ false
        → {r : WriteResult × Volume}
        → Ended
            (with_hint v s2 hint)
            n
            (if first == 0 then c else first)
            c
            (drop (v.bpb.sectors_per_cluster * 512) bytes)
            r
        → Ended v (suc n) first last bytes r
    one_more v n first last bytes c s2 hint step is_last at_end nonzero (inl no_more) = inl no_more
    one_more v n first last bytes c s2 hint step is_last at_end nonzero
          (inr (cs, s3, hint3, run, count, rest)) =
        inr (
          c ∷ cs,
          s3,
          hint3,
          run
              ∙ ap (λ (t : ℕ). (written t, with_hint v s3 hint3))
                  (start_of-cons first c cs nonzero),
          ap suc count,
          Stored-cons step is_last at_end cs s3 hint3 rest,
        )
