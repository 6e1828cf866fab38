-- ===== src/Select/Build/Whole.antt =====
-- `build` of src/select.rs as a whole.
use rescriptum.Prelude.{◌++◌}
use rescriptum.Select.Docs.{Docs}
use rescriptum.Select.Listing.{Snapshot, Listing}
use rescriptum.Select.Build.Groups.{parse_groups, compose_groups, sort_groups}
use rescriptum.Select.Build.Machines.{
  load_machines, sort_candidates, check_machines, load_fallbacks,
}

module _ (D : Docs) where
  open D use {Doc}

  unfoldable pub build : Snapshot → Listing Doc
  unfolding parse_groups compose_groups load_machines check_machines load_fallbacks
  build snapshot =
      let (parsed, unparsed) = parse_groups D snapshot.groups in
      let (composed, broken) = compose_groups D parsed parsed in
      let groups = sort_groups D composed in
      let (loaded, unloaded) = load_machines D snapshot.machines in
      let candidates = sort_candidates D loaded in
      let (fallbacks, lost) = load_fallbacks D groups snapshot.fallbacks in
      record {
        candidates = candidates;
        groups = groups;
        fallbacks = fallbacks;
        problems =
            snapshot.problems
            ++ (unparsed ++ (broken ++ (unloaded ++ (check_machines D groups candidates ++ lost))));
      }
