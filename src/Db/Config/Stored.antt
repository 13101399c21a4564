-- ===== src/Db/Config/Stored.antt =====
-- db/config_sqlite.go: what is read back behind a write.
use openfsd.Prelude.{
  ◌≡◌, refl, String, str_eq, str_eq_iff, List, [], ◌∷◌, some, arith, if◌then◌else◌,
}
use openfsd.Prelude.Bytes.{Bytes}
use openfsd.Db.Config.{Settings, Got, value, select_value, get, upsert, set, insert_new}

pub select_value-upsert :
    (k j : String) (v : Bytes) (rows : List (String × Bytes))
    → select_value j (upsert k v rows) ≡ (if str_eq k j then value v else select_value j rows)
unfolding select_value upsert
select_value-upsert k j v [] = refl
select_value-upsert k j v ((i, w) ∷ rows) =
    ground (arith, str_eq_iff k j, str_eq_iff i k, str_eq_iff i j, select_value-upsert k j v rows)

-- A setting that is there.
abbrev pub present : Got → Bytes → Got
present (value w) v = value w
present _ v = value v

pub select_value-insert_new :
    (k j : String) (v : Bytes) (rows : List (String × Bytes))
    → select_value j (insert_new k v rows)
      ≡ (if str_eq k j then present (select_value j rows) v else select_value j rows)
unfolding select_value insert_new
select_value-insert_new k j v [] = ground arith
select_value-insert_new k j v ((i, w) ∷ rows) =
    ground
      (arith, str_eq_iff k j, str_eq_iff i k, str_eq_iff i j, select_value-insert_new k j v rows)

-- Behind a write the key reads as the value written, and every other key as before.
pub get-set :
    (k j : String) (v : Bytes) (s s' : Settings)
    → set k v s ≡ some s'
    → get j s' ≡ (if str_eq k j then value v else get j s)
unfolding set get
get-set k j v s s' h = ground (arith, select_value-upsert k j v s.rows)
