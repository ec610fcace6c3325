-- ===== src/Scan/Bounded/Groups.antt =====
-- `groupTop` of server/stream.go: what it lists of all the groups of a scan, and what it reports.
use duplicatefinder.Scan.Bounded.Listing.{bounded_add_all-Ran}
use mathlib.Core.Path.{subst}
use duplicatefinder.Scan.Bounded.Keeping.{
  total-sort_stable, SortOf, total-insert_stable, total, Ranks,
}
use duplicatefinder.Scan.Bounded.Ranking.{
  larger_first-Key, Ranks-same, by_key-Ranks, path_order-Ranks, text-Key, by_key,
}
use duplicatefinder.Base.{
  ◌∙◌, drop, ◌-◌, take, sym, length, Option-cases, ap, suc, some, Option, List, ltb, text_eq, ◌%◌,
  ◌+◌, inr, inl, ◌==◌, Bool-cases, Bool, refl, ◌∷◌, [], arith, ◌^◌, ◌≡◌, ◌<◌, add64, ℕ, text_lt,
  lt64,
}
use duplicatefinder.Scan.Bounded.{
  sort_stable, group_limit, sorted_groups, new_group_top, group_add, bounded_add_all, group_add_all,
  bounded_add, group_less, heap_push, group_add_full, row_count, add_full, BoundedTop, GroupTop,
  first_path, RawGroup, better_group, weight,
}

-- The order of the listing ranks the groups: int64 weights are ordered by their shifted patterns.
shifted : RawGroup → ℕ
shifted g = (weight g + 2 ^ 63) % 2 ^ 64

weight-lt : (g : RawGroup) → weight g < 2 ^ 64
unfolding weight add64
weight-lt g = omega arith

by_path : RawGroup → RawGroup → Bool
by_path a b = text_lt (first_path a.files) (first_path b.files)

by_hash : RawGroup → RawGroup → Bool
unfolding by_path
by_hash =
    by_key (λ g. g.hash) text_eq text_lt text-Key by_path
      (path_order-Ranks (λ g. first_path g.files))

by_hash-Ranks : Ranks by_hash
unfolding by_hash by_path
by_hash-Ranks =
    by_key-Ranks (λ g. g.hash) text_eq text_lt text-Key by_path
      (path_order-Ranks (λ g. first_path g.files))

by_weight : RawGroup → RawGroup → Bool
by_weight = by_key shifted ◌==◌ (λ x y. ltb y x) larger_first-Key by_hash by_hash-Ranks

by_weight-eq-better_group : (a b : RawGroup) → by_weight a b ≡ better_group a b
unfolding by_weight better_group by_hash by_path shifted lt64
by_weight-eq-better_group a b = ground (arith, weight-lt a, weight-lt b)

pub better_group-Ranks : Ranks better_group
unfolding by_weight
better_group-Ranks =
    Ranks-same by_weight better_group by_weight-eq-better_group
      (by_key-Ranks shifted ◌==◌ (λ x y. ltb y x) larger_first-Key by_hash by_hash-Ranks)

abbrev forget : GroupTop → BoundedTop RawGroup
forget t = record { limit = t.limit; ents = t.gs; dropped = t.dropped_groups }

-- The files of the groups that are kept, and the count of those that are not.
abbrev accounted : GroupTop → ℕ
accounted t = total row_count t.gs + t.dropped_files

-- `groupTop` adds as `boundedTop` does, and accounts for every file besides.
record AddsGroup (g : RawGroup) (t : GroupTop) (b : BoundedTop RawGroup) (o : Option GroupTop)
    : Type 0 where
  top : GroupTop
  returns : o ≡ some top
  same : forget top ≡ b
  accounts : accounted top ≡ row_count g + accounted t

group_add_full-AddsGroup :
    (t : GroupTop) (g : RawGroup) (gs : List RawGroup) (b : BoundedTop RawGroup)
    → t.gs ≡ gs
    → add_full better_group (forget t) g gs ≡ some b
    → AddsGroup g t b (group_add_full t g gs)
unfolding heap_push
group_add_full-AddsGroup t g [] b e h = cc
group_add_full-AddsGroup t g (root ∷ hs) b e h = elim (Bool-cases (better_group g root)) [
  | inl better ↦ record {
    top = record t {
      gs = heap_push group_less g hs;
      dropped_groups = suc t.dropped_groups;
      dropped_files = t.dropped_files + row_count root;
    };
    returns = rw better refl;
    same = ground (arith, h, better);
    accounts = omega (arith, total-insert_stable group_less row_count g hs, ap (total row_count) e);
  }
  | inr worse ↦ record {
    top = record t {
      dropped_groups = suc t.dropped_groups;
      dropped_files = t.dropped_files + row_count g;
    };
    returns = rw worse refl;
    same = ground (arith, h, worse, e);
    accounts = omega arith;
  }
]

group_add-AddsGroup :
    (t : GroupTop) (g : RawGroup) (b : BoundedTop RawGroup)
    → bounded_add better_group (forget t) g ≡ some b
    → AddsGroup g t b (group_add t g)
unfolding bounded_add group_add heap_push
group_add-AddsGroup t g b h = elim (Bool-cases (ltb (length t.gs) t.limit)) [
  | inr full ↦ rw full (group_add_full-AddsGroup t g t.gs b refl (ground (arith, h, full)))
  | inl short ↦ record {
    top = record t { gs = heap_push group_less g t.gs };
    returns = rw short refl;
    same = ground (arith, h, short);
    accounts = omega (arith, total-insert_stable group_less row_count g t.gs);
  }
]

record AddsGroups (gs : List RawGroup) (t : GroupTop) (b : BoundedTop RawGroup) : Type 0 where
  top : GroupTop
  returns : group_add_all t gs ≡ some top
  same : forget top ≡ b
  accounts : accounted top ≡ total row_count gs + accounted t

group_add_all-AddsGroups :
    (gs : List RawGroup) (t : GroupTop) (b : BoundedTop RawGroup)
    → bounded_add_all better_group (forget t) gs ≡ some b
    → AddsGroups gs t b
unfolding bounded_add_all group_add_all
group_add_all-AddsGroups [] t b h = record {
  top = t;
  returns = refl;
  same = ground (arith, h);
  accounts = omega arith;
}
group_add_all-AddsGroups (g ∷ gs) t b h =
    elim (Option-cases (bounded_add better_group (forget t) g)) [
      | inl e ↦ absurd (ground (arith, h, e))
      | inr (u, e) ↦
          let step = group_add-AddsGroup t g u e in
          let rest = group_add_all-AddsGroups gs step.top b (
            subst (λ x. bounded_add_all better_group x gs ≡ some b) (sym step.same)
              (ground (arith, h, e))) in
          record {
            top = rest.top;
            returns = rw (step.returns, group_add_all) rest.returns;
            same = rest.same;
            accounts = omega (arith, step.accounts, rest.accounts);
          }
    ]

-- What a list of the groups of a scan is to hold and to count.
pub record ListsGroups (budget : ℕ) (gs : List RawGroup) : Type 0 where
  pub top : GroupTop
  pub accepted : group_add_all (new_group_top budget) gs ≡ some top
  pub sorted : List RawGroup
  pub sorts : SortOf better_group gs sorted
  pub listed : sorted_groups top ≡ take (group_limit budget) sorted
  pub groups_counted : top.dropped_groups ≡ length gs - group_limit budget
  pub files_counted : top.dropped_files ≡ total row_count (drop (group_limit budget) sorted)

group_limit-pos : (budget : ℕ) → 0 < group_limit budget
group_limit-pos budget = ground arith

-- Every group of a scan is accepted; those listed are the first `limit` of them in order, and all
-- others, with all their files, are counted as dropped.
pub group_add_all-ListsGroups : (budget : ℕ) (gs : List RawGroup) → ListsGroups budget gs
unfolding new_group_top sorted_groups
group_add_all-ListsGroups budget gs =
    let run =
      bounded_add_all-Ran better_group better_group-Ranks (group_limit budget)
        (group_limit-pos budget) gs in
    let sim = group_add_all-AddsGroups gs (new_group_top budget) run.top run.accepted in
    let ents = ap (λ (x : BoundedTop RawGroup). x.ents) sim.same in
    record {
      top = sim.top;
      accepted = sim.returns;
      sorted = run.cut.whole;
      sorts = run.cut.sorts;
      listed = ap (sort_stable better_group) ents ∙ run.cut.front;
      groups_counted = ap (λ (x : BoundedTop RawGroup). x.dropped) sim.same ∙ run.dropped_eq;
      files_counted = omega (
        arith,
        sim.accounts,
        ap (total row_count) ents,
        run.cut.totals row_count,
        total-sort_stable better_group row_count run.top.ents,
        ap (total row_count) run.cut.back,
      );
    }
