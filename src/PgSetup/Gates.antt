-- ===== src/PgSetup/Gates.antt =====
-- What a bootstrap runs and writes.
use gitlab_geo_sync.Prelude.{
  ℕ, suc, zero, String, ◌≡◌, ◌≢◌, ◌⊎◌, refl, Bool, true, false, Option, none, some, List, inl, inr,
  if◌then◌else◌, ◌==◌,
}
use gitlab_geo_sync.Go.Fmt.{Error, Result, ok, err, panic}
use gitlab_geo_sync.PgSetup.{
  Options, Act, basebackup, written, Machine, build_basebackup_args, entries_checked,
  check_data_dir, conf_text, write_done, with_content, append_conn_info_appname, backup_done,
  dir_checked, run,
}

abbrev pub conf_path : Machine → Options → String
conf_path mc opts = mc.join opts.data_dir "postgresql.auto.conf"

abbrev pub the_backup : Options → Act
the_backup opts = basebackup (build_basebackup_args opts)

-- The file is written with the rewritten text of what it held.
abbrev pub the_file : Machine → Options → String → Act
the_file mc opts content = written (conf_path mc opts) (conf_text opts.slot_name content)

-- After the backup, at most the file is written.
abbrev pub OneFile : Machine → Options → List Act → Type 0
OneFile mc opts List.[] = Unit
OneFile mc opts (List.◌∷◌ a List.[]) =
    (content : String) × ((mc.read_file (conf_path mc opts) ≡ ok content)
      × (a ≡ the_file mc opts content))
OneFile mc opts (List.◌∷◌ a (List.◌∷◌ b rest)) = ⊥

-- Nothing was run; or the backup was, outside a dry run and with no entry known in the directory.
abbrev pub Cautious : Machine → Options → List Act → Type 0
Cautious mc opts List.[] = Unit
Cautious mc opts (List.◌∷◌ a rest) =
    (a ≡ the_backup opts)
    × ((opts.dry_run ≡ false)
        × (((n : ℕ) → mc.read_dir opts.data_dir ≢ ok (suc n)) × OneFile mc opts rest))

-- Everything was done: the backup, and the file unless there is no slot to name.
abbrev pub Done : Machine → Options → List Act → Type 0
Done mc opts acts =
    ((opts.slot_name == "") ≡ true × (acts ≡ List.◌∷◌ (the_backup opts) List.[]))
    ⊎ ((content : String) × ((mc.read_file (conf_path mc opts) ≡ ok content)
          × (acts ≡ List.◌∷◌ (the_backup opts) (List.◌∷◌ (the_file mc opts content) List.[]))))

pub record Ran (mc : Machine) (opts : Options) (x : Result (Unit {0}) × List Act) : Type 0 where
  pub cautious : Cautious mc opts x.1
  pub done : x.0 ≡ ok tt → opts.dry_run ≡ false → Done mc opts x.1

nothing-Ran :
    (mc : Machine) (opts : Options) (r : Result (Unit {0}))
    → (r ≡ ok tt → opts.dry_run ≡ true)
    → Ran mc opts (r, List.[])
nothing-Ran mc opts r h = record { cautious = tt; done = λ e d. cc (h e, d) }

abbrev Empty : Machine → Options → Type 0
Empty mc opts = (n : ℕ) → mc.read_dir opts.data_dir ≢ ok (suc n)

written-Ran :
    (mc : Machine) (opts : Options) (content : String) (o : Option Error)
    → opts.dry_run ≡ false
    → Empty mc opts
    → mc.read_file (conf_path mc opts) ≡ ok content
    → Ran mc opts
        (write_done (List.◌∷◌ (the_backup opts) (List.◌∷◌ (the_file mc opts content) List.[])) o)
written-Ran mc opts content none d m e = record {
  cautious = (refl, (d, (m, (content, (e, refl)))));
  done = λ _ _. inr (content, (e, refl));
}
written-Ran mc opts content (some x) d m e = record {
  cautious = (refl, (d, (m, (content, (e, refl)))));
  done = λ _ _. inr (content, (e, refl));
}

content-Ran :
    (mc : Machine) (opts : Options) (r : Result String)
    → opts.dry_run ≡ false
    → Empty mc opts
    → mc.read_file (conf_path mc opts) ≡ r
    → Ran mc opts
        (with_content mc (conf_path mc opts) opts.slot_name r (List.◌∷◌ (the_backup opts) List.[]))
content-Ran mc opts (ok content) d m e =
    written-Ran mc opts content
      (mc.write_file (conf_path mc opts) (conf_text opts.slot_name content)) d m e
content-Ran mc opts (err x) d m e = record { cautious = (refl, (d, (m, tt))); done = λ q _. cc }
content-Ran mc opts (panic x) d m e = record { cautious = (refl, (d, (m, tt))); done = λ q _. cc }

appended-Ran :
    (mc : Machine) (opts : Options)
    → opts.dry_run ≡ false
    → Empty mc opts
    → Ran mc opts (
        append_conn_info_appname mc opts.data_dir opts.slot_name
          (List.◌∷◌ (the_backup opts) List.[]))
unfolding append_conn_info_appname
appended-Ran mc opts d m = by_slot (opts.slot_name == "") refl
  where
    by_slot :
        (b : Bool)
        → (opts.slot_name == "") ≡ b
        → Ran mc opts (
            if b
            then (ok tt, List.◌∷◌ (the_backup opts) List.[])
            else with_content mc
                (conf_path mc opts)
                opts.slot_name
                (mc.read_file (conf_path mc opts))
                (List.◌∷◌ (the_backup opts) List.[]))
    by_slot true e = record { cautious = (refl, (d, (m, tt))); done = λ _ _. inl (e, refl) }
    by_slot false e = content-Ran mc opts (mc.read_file (conf_path mc opts)) d m refl

backup-Ran :
    (mc : Machine) (opts : Options) (o : Option Error)
    → opts.dry_run ≡ false
    → Empty mc opts
    → Ran mc opts (backup_done mc opts o (List.◌∷◌ (the_backup opts) List.[]))
backup-Ran mc opts none d m = appended-Ran mc opts d m
backup-Ran mc opts (some x) d m = record { cautious = (refl, (d, (m, tt))); done = λ q _. cc }

checked-Ran :
    (mc : Machine) (opts : Options) (b : Bool)
    → opts.dry_run ≡ b
    → Empty mc opts
    → Ran mc opts (
        if b
        then (ok tt, List.[])
        else backup_done mc opts
            (mc.run_basebackup (build_basebackup_args opts))
            (List.◌∷◌ (the_backup opts) List.[]))
checked-Ran mc opts true d m = nothing-Ran mc opts (ok tt) (λ _. d)
checked-Ran mc opts false d m =
    backup-Ran mc opts (mc.run_basebackup (build_basebackup_args opts)) d m

dir-Ran :
    (mc : Machine) (opts : Options) (r : Result ℕ)
    → mc.read_dir opts.data_dir ≡ r
    → Ran mc opts (dir_checked mc opts (entries_checked opts.data_dir r))
dir-Ran mc opts (ok zero) e = checked-Ran mc opts opts.dry_run refl (λ n f. cc (e, f))
dir-Ran mc opts (ok (suc n)) e = nothing-Ran mc opts _ (λ q. cc)
dir-Ran mc opts (err x) e = checked-Ran mc opts opts.dry_run refl (λ n f. cc (e, f))
dir-Ran mc opts (panic x) e = nothing-Ran mc opts _ (λ q. cc)

guarded-Ran :
    (mc : Machine) (opts : Options) (a b : Bool) (e f : Error) (x : Result (Unit {0}) × List Act)
    → Ran mc opts x
    → Ran mc opts (if a then (err e, List.[]) else (if b then (err f, List.[]) else x))
guarded-Ran mc opts true b e f x h = nothing-Ran mc opts (err e) (λ q. cc)
guarded-Ran mc opts false true e f x h = nothing-Ran mc opts (err f) (λ q. cc)
guarded-Ran mc opts false false e f x h = h

-- Whatever the machine answers, a bootstrap runs nothing in a dry run or on a directory that is seen
-- to have entries; otherwise it runs at most the backup first and then one write, of the rewritten
-- text of the file that the backup left; and when it succeeds outside a dry run, it has run the
-- backup, and written the file unless there is no slot name.
pub run-Ran : (mc : Machine) (opts : Options) → Ran mc opts (run mc opts)
unfolding run check_data_dir
run-Ran mc opts =
    guarded-Ran mc opts (opts.data_dir == "") (opts.primary_dsn == "") _ _ _
      (dir-Ran mc opts (mc.read_dir opts.data_dir) refl)
