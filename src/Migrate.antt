-- ===== src/Migrate.antt =====
-- scripts/migrate.ts, and the seed rows of migrations/001_init.sql. The directory, its files and
-- the connection of mysql2 are arguments.
pub mod Order
pub mod Listing
pub mod Runs
pub mod Seeds
mod Tests
use property_platform_backen.Prelude.{
  ℕ, ◌+◌, Text, codes, text_eq, length, drop, ◌-◌, ltb, leb, ◌==◌, Bool, true, false, ◌&&◌, ◌||◌,
  some, List, [], ◌∷◌, ◌++◌, select, any, if◌then◌else◌,
}
use property_platform_backen.Effects.{Result, ok, err, Exec, continue, ◌>>=◌, ◌>>◌}
use property_platform_backen.Database.{Property, published}

-- `s.endsWith(t)`
unfoldable pub ends_with : Text → Text → Bool
ends_with s t = leb (length t) (length s) && text_eq (drop (length s - length t) s) t

-- The order of `sort`: by code units, a text before those that it begins.
unfoldable pub text_le : Text → Text → Bool
text_le [] t = true
text_le (a ∷ s) [] = false
text_le (a ∷ s) (b ∷ t) = ltb a b || (a == b && text_le s t)

unfoldable pub insert_text : Text → List Text → List Text
insert_text s [] = s ∷ []
insert_text s (t ∷ ts) = if text_le s t then s ∷ t ∷ ts else t ∷ insert_text s ts

-- `sort()`
unfoldable pub sort : List Text → List Text
unfolding insert_text
sort [] = []
sort (t ∷ ts) = insert_text t (sort ts)

-- `readdirSync(dir).filter((f) => f.endsWith('.sql')).sort()`
unfoldable pub sql_files : List Text → List Text
unfolding sort ends_with
sql_files names = sort (select (λ f. ends_with f (codes ".sql")) names)

-- What the script reaches: the directory, its files, and the server with its state `S`.
pub record Deployment (S : Type 0) : Type 0 where
  pub names : List Text
  pub read_file : Text → Result Text
  pub create_connection : Exec S (Unit {0})
  pub query : Text → Exec S (Unit {0})
  pub close : Exec S (Unit {0})

abbrev pub exit_code : Result (Unit {0}) → ℕ
exit_code (ok u) = 0
exit_code (err e) = 1

module _ {S : Type 0} (d : Deployment S) where
  -- One turn of the loop.
  unfoldable pub apply_file : Text → Exec S (Unit {0})
  unfolding continue
  apply_file file = do sql ← λ s. (d.read_file file, s); d.query sql

  unfoldable pub apply_all : List Text → Exec S (Unit {0})
  unfolding continue apply_file
  apply_all [] = λ s. (ok tt, s)
  apply_all (file ∷ files) = do apply_file file; apply_all files

  -- The connection, and the database that it uses.
  unfoldable pub open_database : Text → Exec S (Unit {0})
  unfolding continue
  open_database db_name = do
    d.create_connection
    d.query (codes "CREATE DATABASE IF NOT EXISTS `" ++ db_name ++ codes "` CHARACTER SET utf8mb4")
    d.query (codes "USE `" ++ db_name ++ codes "`")

  unfoldable pub run : Text → Exec S (Unit {0})
  unfolding continue open_database apply_all
  run db_name = do open_database db_name; apply_all (sql_files d.names); d.close

  -- `run().catch(…)`: the code with which the process exits, and the state of the server.
  unfoldable pub migrate : Text → S → ℕ × S
  unfolding run
  migrate db_name s = let (result, t) = run db_name s in (exit_code result, t)

-- One of the rows in VALUES.
pub record Seed : Type 0 where
  pub wp_post_id : ℕ
  pub title : Text
  pub slug : Text

-- UPDATE title = VALUES(title) of the row whose slug it is.
unfoldable pub retitle : Seed → List Property → List Property
retitle s [] = []
retitle s (p ∷ ps) =
    (if text_eq p.slug s.slug then record p { title = s.title } else p) ∷ retitle s ps

-- INSERT INTO properties … ON DUPLICATE KEY UPDATE for one row, where `id` is the value of
-- AUTO_INCREMENT.
unfoldable pub upsert : ℕ → Seed → List Property → List Property
unfolding retitle
upsert id s ps =
    if any (λ p. text_eq p.slug s.slug) ps
    then retitle s ps
    else (record {
      id = id;
      wp_post_id = some s.wp_post_id;
      title = s.title;
      slug = s.slug;
      status = published;
    }
        ∷ ps)

-- The rows of VALUES, each of which takes an id.
unfoldable pub upsert_all : ℕ → List Seed → List Property → List Property
unfolding upsert
upsert_all id [] ps = ps
upsert_all id (s ∷ ss) ps = upsert_all (id + 1) ss (upsert id s ps)
