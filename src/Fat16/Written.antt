-- ===== src/Fat16/Written.antt =====
-- kernel/fat16.c: the clusters that the bytes of a file are written to.
use aioperatingsystem.Common.{
  ℕ, ◌+◌, ◌-◌, ◌*◌, ◌≤◌, ◌<◌, ◌≡◌, ◌≢◌, ◌⊎◌, refl, sym, ◌∙◌, ap, subst, inl, inr, true, List, [],
  ◌∷◌, arith, drop, All, ◌==◌, if◌then◌else◌,
}
use aioperatingsystem.Fat16.{Volume, eoc_min, fat_read_entry}
use aioperatingsystem.Fat16.Chain.{in_chain}
use aioperatingsystem.Fat16.Chain.Free.{IsChain}
use aioperatingsystem.Fat16.Sectors.{Holds, Holds-same}
use aioperatingsystem.Fat16.Clusters.{
  IsVolume, IsData, data_lba, other_cluster, TableReads, set_entry,
}
use aioperatingsystem.Fat16.Extend.{IsLast, with_hint}

-- The clusters hold the bytes, each its share.
abbrev pub HoldsClusters : Volume → (ℕ → List ℕ) → List ℕ → List ℕ → Type 0
HoldsClusters v s [] bytes = Unit {0}
HoldsClusters v s (c ∷ cs) bytes =
    Holds s (data_lba v c) v.bpb.sectors_per_cluster bytes
    × HoldsClusters v s cs (drop (v.bpb.sectors_per_cluster * 512) bytes)

-- Where a chain begins, or the mark of an end.
abbrev pub head_or_end : List ℕ → ℕ
head_or_end [] = eoc_min
head_or_end (c ∷ cs) = c

abbrev pub start_of : ℕ → List ℕ → ℕ
start_of first [] = first
start_of first (c ∷ cs) = if first == 0 then c else first

-- The clusters `cs` were free in `v`; in `w` they are a chain behind `last` that holds the bytes, and
-- every other cluster that was in use has the entry and the sectors that it had.
pub record Stored (v : Volume) (last : ℕ) (bytes cs : List ℕ) (w : Volume) : Type 0 where
  pub volume : IsVolume w
  pub fresh : All (λ c. IsData v c × (fat_read_entry v c ≡ 0)) cs
  pub chain : IsChain w (head_or_end cs) cs
  pub linked : IsData v last → fat_read_entry w last ≡ head_or_end cs
  pub contents : HoldsClusters v w.sectors cs bytes
  pub table_kept :
      (d : ℕ)
      → IsData v d
      → fat_read_entry v d ≢ 0
      → d ≢ last
      → fat_read_entry w d ≡ fat_read_entry v d
  pub sectors_kept :
      (d k : ℕ)
      → IsData v d
      → fat_read_entry v d ≢ 0
      → k < v.bpb.sectors_per_cluster
      → w.sectors (data_lba v d + k) ≡ v.sectors (data_lba v d + k)

pub All-map : {P Q : ℕ → Type 0} (cs : List ℕ) → ((c : ℕ) → P c → Q c) → All P cs → All Q cs
All-map [] f h = tt
All-map (c ∷ cs) f (p, h) = (f c p, All-map cs f h)

-- A step of the loop: `v1` is `v` with the cluster `c` at the end of the chain, `v2` has its sectors written.
pub record Step (v : Volume) (last : ℕ) (bytes : List ℕ) (c : ℕ) (s : ℕ → List ℕ) (hint : ℕ)
    : Type 0 where
  pub volume : IsVolume (with_hint v s hint)
  pub here : IsData v c
  pub free : fat_read_entry v c ≡ 0
  pub table :
      TableReads (with_hint v s hint) s (set_entry (set_entry (fat_read_entry v) c eoc_min) last c)
  pub contents : Holds s (data_lba v c) v.bpb.sectors_per_cluster bytes
  pub kept :
      (l : ℕ)
      → v.data_start_lba ≤ l
      → (l < data_lba v c) ⊎ (data_lba v c + v.bpb.sectors_per_cluster ≤ l)
      → s l ≡ v.sectors l

set_entry_at : (f : ℕ → ℕ) (c value d : ℕ) → d ≡ c → set_entry f c value d ≡ value
set_entry_at f c value d e = ground arith

set_entry_ne : (f : ℕ → ℕ) (c value d : ℕ) → d ≢ c → set_entry f c value d ≡ f d
set_entry_ne f c value d ne = ground arith

same_or_not : (a b : ℕ) → (a ≡ b) ⊎ (a ≢ b)
same_or_not a b = omega arith

-- An entry after the step, for the three kinds of clusters.
module _ {v : Volume} {last : ℕ} {bytes : List ℕ} {c : ℕ} {s : ℕ → List ℕ} {hint : ℕ}
    (step : Step v last bytes c s hint) (is_last : IsLast v last)
    (at_end : IsData v last → fat_read_entry v last ≡ eoc_min) where
  abbrev after : Volume
  after = with_hint v s hint

  not_itself : c ≢ last
  not_itself e = elim is_last [
    | inl none ↦ omega (arith, none, step.here, e)
    | inr there ↦
        absurd (eoc_not_free (sym (at_end there) ∙ ap (fat_read_entry v) (sym e) ∙ step.free))
  ]
    where
      eoc_not_free : eoc_min ≡ 0 → ⊥
      eoc_not_free h = omega (arith, h)

  pub entry_of_new : fat_read_entry after c ≡ eoc_min
  entry_of_new =
      step.table c step.here
      ∙ set_entry_ne (set_entry (fat_read_entry v) c eoc_min) last c c not_itself
      ∙ set_entry_at (fat_read_entry v) c eoc_min c refl

  entry_of_end : IsData v last → fat_read_entry after last ≡ c
  entry_of_end there =
      step.table last there ∙ set_entry_at (set_entry (fat_read_entry v) c eoc_min) last c last refl

  entry_of_other :
      (d : ℕ) → IsData v d → d ≢ last → d ≢ c → fat_read_entry after d ≡ fat_read_entry v d
  entry_of_other d there ne other =
      step.table d there
      ∙ set_entry_ne (set_entry (fat_read_entry v) c eoc_min) last c d ne
      ∙ set_entry_ne (fat_read_entry v) c eoc_min d other

  free_before :
      (d : ℕ) → IsData v d → fat_read_entry after d ≡ 0 → (fat_read_entry v d ≡ 0) × (d ≢ c)
  free_before d there free = elim (same_or_not d last) [
    | inl same ↦ absurd (
        let e : fat_read_entry after last ≡ 0 = ap (fat_read_entry after) (sym same) ∙ free in
        let linked = entry_of_end (subst (IsData v) same there) in
        omega (arith, sym linked ∙ e, step.here))
    | inr ne ↦ elim (same_or_not d c) [
      | inl same ↦ absurd (
          let e : eoc_min ≡ 0 = sym entry_of_new ∙ ap (fat_read_entry after) (sym same) ∙ free in
          omega (arith, e))
      | inr other ↦ (sym (entry_of_other d there ne other) ∙ free, other)
    ]
  ]

  still_used :
      (d : ℕ) → IsData v d → fat_read_entry v d ≢ 0 → (fat_read_entry after d ≢ 0) × (d ≢ c)
  still_used d there used =
      (λ e. used (free_before d there e).0, λ e. used (ap (fat_read_entry v) e ∙ step.free))

  -- The sectors of the clusters that were in use.
  sectors_of_other :
      (d k : ℕ)
      → IsData v d
      → fat_read_entry v d ≢ 0
      → k < v.bpb.sectors_per_cluster
      → s (data_lba v d + k) ≡ v.sectors (data_lba v d + k)
  sectors_of_other d k there used small =
      step.kept (data_lba v d + k) (omega arith)
        (other_cluster v c d k step.here there (still_used d there used).1 small)

  -- What the rest of the loop does comes on top.
  pub Stored-cons :
      (cs : List ℕ) (s2 : ℕ → List ℕ) (hint2 : ℕ)
      → Stored after c (drop (v.bpb.sectors_per_cluster * 512) bytes) cs (with_hint v s2 hint2)
      → Stored v last bytes (c ∷ cs) (with_hint v s2 hint2)
  Stored-cons cs s2 hint2 rest = record {
    volume = rest.volume;
    fresh =
        ((step.here, step.free), All-map cs (λ d p. (p.0, (free_before d p.0 p.1).0)) rest.fresh);
    chain = (
      refl,
      in_range,
      omega (arith, step.here, step.volume.in_table),
      All-map cs (λ d p. (free_before d p.0 p.1).1) rest.fresh,
      subst (λ (t : ℕ). IsChain (with_hint v s2 hint2) t cs) (sym (rest.linked step.here))
          rest.chain,
    );
    linked = λ there.
        rest.table_kept last there (λ e. omega (arith, step.here, sym (entry_of_end there) ∙ e))
          (λ e. not_itself (sym e))
        ∙ entry_of_end there;
    contents = (
      Holds-same s s2 (data_lba v c) v.bpb.sectors_per_cluster bytes
          (λ l ge lt.
            subst (λ (t : ℕ). s2 t ≡ s t)
              (let e : data_lba v c + (l - data_lba v c) ≡ l = omega arith in e)
              (rest.sectors_kept c (l - data_lba v c) step.here
                (λ e. omega (arith, sym entry_of_new ∙ e)) (omega arith)))
          step.contents,
      rest.contents,
    );
    table_kept = λ d there used ne.
        rest.table_kept d there (still_used d there used).0 (still_used d there used).1
        ∙ entry_of_other d there ne (still_used d there used).1;
    sectors_kept = λ d k there used small.
        rest.sectors_kept d k there (still_used d there used).0 small
        ∙ sectors_of_other d k there used small;
  }
    where
      in_range : in_chain c ≡ true
      in_range = ground (arith, step.here, step.volume.in_range)
