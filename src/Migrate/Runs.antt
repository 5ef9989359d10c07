-- ===== src/Migrate/Runs.antt =====
-- What a run of the script applies, and how it ends.
use property_platform_backen.Prelude.{
  ℕ, ◌≡◌, refl, ap, Text, codes, List, [], ◌∷◌, ◌++◌, ◌⊎◌, inl, inr,
}
use property_platform_backen.Errors.{Thrown}
use property_platform_backen.Effects.{Result, ok, err, continue}
use property_platform_backen.Migrate.{
  Deployment, apply_file, apply_all, open_database, run, migrate, exit_code, sql_files,
}
use property_platform_backen.Migrate.Listing.{IsListing, sql_files-IsListing}

module _ {S : Type 0} (d : Deployment S) where
  -- The files were applied one after the other: each was read, and its SQL was run without an
  -- error.
  pub data Applied : List Text → S → S → Type 0 where
    none_left : {s : S} → Applied [] s s
    one_more :
        {file sql : Text} {files : List Text} {s t u : S}
        → d.read_file file ≡ ok sql
        → d.query sql s ≡ (ok tt, t)
        → Applied files t u
        → Applied (file ∷ files) s u

  -- A file cannot be read, or the server refuses its SQL.
  abbrev pub Fails : Text → S → Thrown → S → Type 0
  Fails file s e u =
      ((d.read_file file ≡ err e) × (u ≡ s))
      ⊎ ((sql : Text) × (d.read_file file ≡ ok sql) × (d.query sql s ≡ (err e, u)))

  -- The files up to one that fails were applied, and none behind it.
  pub record Stopped (files : List Text) (s : S) (e : Thrown) (u : S) : Type 0 where
    pub before : List Text
    pub file : Text
    pub skipped : List Text
    pub reached : S
    pub parted : files ≡ before ++ file ∷ skipped
    pub applied : Applied before s reached
    pub stopped : Fails file reached e u

  -- How the loop ends.
  abbrev pub Ends : List Text → S → Result (Unit {0}) × S → Type 0
  Ends files s (ok v, t) = Applied files s t
  Ends files s (err e, u) = Stopped files s e u

  Ends-cons :
      (file sql : Text) (files : List Text) (s t : S)
      → d.read_file file ≡ ok sql
      → d.query sql s ≡ (ok tt, t)
      → (r : Result (Unit {0}) × S) → Ends files t r
      → Ends (file ∷ files) s r
  Ends-cons file sql files s t g h (ok v, u) k = one_more g h k
  Ends-cons file sql files s t g h (err e, u) k = record {
    before = file ∷ k.before;
    file = k.file;
    skipped = k.skipped;
    reached = k.reached;
    parted = ap (λ fs. file ∷ fs) k.parted;
    applied = one_more g h k.applied;
    stopped = k.stopped;
  }

  stops_at :
      (file : Text) (files : List Text) (s u : S) (e : Thrown)
      → Fails file s e u
      → Ends (file ∷ files) s (err e, u)
  stops_at file files s u e h = record {
    before = [];
    file = file;
    skipped = files;
    reached = s;
    parted = refl;
    applied = none_left;
    stopped = h;
  }

  after_query :
      (file sql : Text) (files : List Text) (s : S)
      → ((t : S) → Ends files t (apply_all d files t))
      → d.read_file file ≡ ok sql
      → (r : Result (Unit {0}) × S) → d.query sql s ≡ r
      → Ends (file ∷ files) s (continue (λ u. apply_all d files) r)
  unfolding continue
  after_query file sql files s rest g (ok v, t) h =
      Ends-cons file sql files s t g h (apply_all d files t) (rest t)
  after_query file sql files s rest g (err e, u) h = stops_at file files s u e (inr (sql, g, h))

  first_ends :
      (file : Text) (files : List Text) (s : S)
      → ((t : S) → Ends files t (apply_all d files t))
      → (r : Result Text) → d.read_file file ≡ r
      → Ends (file ∷ files) s (continue (λ u. apply_all d files) (apply_file d file s))
  unfolding apply_file continue
  first_ends file files s rest (ok sql) h =
      rw h (after_query file sql files s rest h (d.query sql s) refl)
  first_ends file files s rest (err e) h = rw h (stops_at file files s s e (inl (h, refl)))

  loop_ends : (files : List Text) (s : S) → Ends files s (apply_all d files s)
  unfolding apply_all
  loop_ends [] s = none_left
  loop_ends (file ∷ files) s = first_ends file files s (loop_ends files) (d.read_file file) refl

  -- How the script ends from a state in which its database is open: with the `.sql` files of its
  -- directory, in ascending order, up to one that fails, or with all of them and the end of the
  -- connection, which fails or not.
  abbrev pub Exits : S → ℕ × S → Type 0
  Exits s exit =
      (files : List Text) × IsListing d.names files
      × (((e : Thrown) × (u : S) × Stopped files s e u × (exit ≡ (1, u)))
          ⊎ ((t : S) × (u : S) × Applied files s t
              × (((d.close t ≡ (ok tt, u)) × (exit ≡ (0, u)))
                  ⊎ ((e : Thrown) × (d.close t ≡ (err e, u)) × (exit ≡ (1, u))))))

  exit_of : Result (Unit {0}) × S → ℕ × S
  exit_of (r, t) = (exit_code r, t)

  after_close :
      (s t : S)
      → Applied (sql_files d.names) s t
      → (r : Result (Unit {0}) × S) → d.close t ≡ r
      → Exits s (exit_of r)
  unfolding exit_of
  after_close s t h (ok v, u) e =
      (sql_files d.names, sql_files-IsListing d.names, inr (t, u, h, inl (e, refl)))
  after_close s t h (err x, u) e =
      (sql_files d.names, sql_files-IsListing d.names, inr (t, u, h, inr (x, e, refl)))

  close-Exits :
      (s : S) (r : Result (Unit {0}) × S)
      → Ends (sql_files d.names) s r
      → Exits s (exit_of (continue (λ u. d.close) r))
  unfolding exit_of continue
  close-Exits s (ok v, t) h = after_close s t h (d.close t) refl
  close-Exits s (err e, u) h = (sql_files d.names, sql_files-IsListing d.names, inl (e, u, h, refl))

  -- When the script has connected, made its database and chosen it, it reads and runs the `.sql`
  -- files of its directory in ascending order until one fails. Then it exits with 1 and reads no
  -- further one. After the last it closes the connection, and exits with 0 if that succeeds, and
  -- with 1 if it fails.
  pub migrate-Exits :
      (db_name : Text) (s t u v : S)
      → d.create_connection s ≡ (ok tt, t)
      → d.query
          (codes "CREATE DATABASE IF NOT EXISTS `" ++ db_name ++ codes "` CHARACTER SET utf8mb4")
          t
        ≡ (ok tt, u)
      → d.query (codes "USE `" ++ db_name ++ codes "`") u ≡ (ok tt, v)
      → Exits v (migrate d db_name s)
  unfolding migrate run open_database exit_of continue
  migrate-Exits db_name s t u v connected made chosen =
      rw (connected, made, chosen)
        (close-Exits v (apply_all d (sql_files d.names) v) (loop_ends (sql_files d.names) v))
