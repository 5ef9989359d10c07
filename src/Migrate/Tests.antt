-- ===== src/Migrate/Tests.antt =====
-- Instances for a directory of three files and a server that keeps a log.
use property_platform_backen.Prelude.{◌≡◌, refl, Text, codes, List, [], ◌∷◌, All, text_eq}
use property_platform_backen.Effects.{ok, continue}
use property_platform_backen.Samples.{house}
use property_platform_backen.Migrate.{
  Deployment, Seed, sql_files, sort, insert_text, text_le, ends_with, upsert_all, migrate,
  open_database,
}
use property_platform_backen.Migrate.Runs.{Exits, migrate-Exits}
use property_platform_backen.Migrate.Seeds.{IsSeeded, seeds_twice}

sorted_here :
    sql_files (codes "b.sql" ∷ codes "notes" ∷ codes "a.sql" ∷ [])
    ≡ codes "a.sql" ∷ codes "b.sql" ∷ []
unfolding sql_files sort insert_text text_le ends_with text_eq codes
sorted_here = refl

abbrev logged : Deployment (List Text)
logged = record {
  names = codes "b.sql" ∷ codes "notes" ∷ codes "a.sql" ∷ [];
  read_file = λ f. ok f;
  create_connection = λ log. (ok tt, log);
  query = λ sql log. (ok tt, sql ∷ log);
  close = λ log. (ok tt, log);
}

abbrev opened : List Text
opened = (open_database logged (codes "shop") []).1

migrate-Exits_example : Exits logged opened (migrate logged (codes "shop") [])
unfolding open_database continue codes
migrate-Exits_example =
    migrate-Exits logged (codes "shop") [] []
      (codes "CREATE DATABASE IF NOT EXISTS `shop` CHARACTER SET utf8mb4" ∷ []) opened refl refl
      refl

abbrev seeds : List Seed
seeds =
    record { wp_post_id = 101; title = codes "New house"; slug = codes "house" }
    ∷ record { wp_post_id = 102; title = codes "Studio"; slug = codes "studio" }
    ∷ []

seeds_twice_example :
    All (λ s. IsSeeded s (upsert_all 8 seeds (house ∷ []))) seeds
    × (upsert_all 10 seeds (upsert_all 8 seeds (house ∷ [])) ≡ upsert_all 8 seeds (house ∷ []))
unfolding codes
seeds_twice_example = seeds_twice 8 10 seeds (house ∷ []) (((λ e. cc), tt), (tt, tt))
