-- ===== src/Users/Tests.antt =====
-- web/user.go: runs at concrete inputs.
use openfsd.Prelude.{◌≡◌, refl, Bool, true, false, List, [], ◌∷◌, none, some, arith}
use openfsd.Prelude.Bytes.{Bytes, codes, bytes_eq, bytes_eq_iff}
use openfsd.Prelude.Int.{pos, ◌≤ℤ◌}
use openfsd.Callsign.Facility.{supervisor}
use openfsd.Db.Users.{
  User, Table, ok, Bcrypt, get_user_by_cid, hash_password, update_user, write_row, update_with,
  create_user,
}
use openfsd.Users.{
  Claims, View, Made, view, UpdateBody, apply_body, CreateBody, update, write_update, create,
}
use openfsd.Users.Update.{
  update_others, update-success, update_grants_rating, update_clobbers_password,
}
use openfsd.Users.Access.{create_success}

abbrev tagged : Bytes → Bytes → Bool
tagged p [] = false
tagged p (c ∷ s) = bytes_eq p s

-- A hash for tests: the text behind a mark.
abbrev marking : Bcrypt
marking = record { hash = λ salt s. some (35 ∷ s); verify = tagged }

marking_verifies : (p q r : Bytes) → marking.hash 0 q ≡ some r → marking.verify p r ≡ true → p ≡ q
marking_verifies p q [] h v = absurd (ground arith)
marking_verifies p q (c ∷ s) h v = ground (arith, bytes_eq_iff p s)

abbrev ada : User
ada = record {
  cid = pos 10;
  password = codes "#old";
  first_name = some (codes "Ada");
  last_name = none;
  network_rating = pos 4;
}

abbrev bob : User
bob = record {
  cid = pos 11;
  password = codes "#bob";
  first_name = none;
  last_name = none;
  network_rating = pos 12;
}

abbrev rows : List User
rows = ada ∷ bob ∷ []

abbrev chief : Claims
chief = record { cid = pos 1; network_rating = supervisor }

abbrev raise : UpdateBody
raise = record {
  cid = pos 10;
  password = none;
  first_name = none;
  last_name = none;
  network_rating = some (pos 12);
}

abbrev lower_bob : UpdateBody
lower_bob = record {
  cid = pos 11;
  password = none;
  first_name = none;
  last_name = none;
  network_rating = some (pos 0);
}

abbrev raised : View
raised = view (record ada { network_rating = pos 12 })

update-success_example :
    (supervisor ≤ℤ chief.network_rating)
    × ((u : User) × (get_user_by_cid raise.cid rows ≡ ok u)
        × (u.network_rating ≤ℤ chief.network_rating)
        × (raised ≡ view (apply_body raise u)))
unfolding update get_user_by_cid apply_body write_update update_user update_with write_row
    hash_password
update-success_example = update-success marking 0 chief raise rows raised refl

update_grants_rating_example :
    (w : User) × (get_user_by_cid raise.cid (update marking 0 chief (some raise) rows).0 ≡ ok w)
    × (w.network_rating ≡ pos 12)
unfolding get_user_by_cid apply_body hash_password
update_grants_rating_example =
    update_grants_rating marking 0 chief raise ada (pos 12) (codes "##old") rows (ground arith) refl
      (ground arith) refl (λ e. ground (arith, e)) refl

update_clobbers_password_example :
    (w : User) × (get_user_by_cid raise.cid (update marking 0 chief (some raise) rows).0 ≡ ok w)
    × (marking.verify (codes "old") w.password ≡ false)
unfolding get_user_by_cid hash_password
update_clobbers_password_example =
    update_clobbers_password marking 0 chief raise ada (codes "##old") (codes "old") rows
      marking_verifies (ground arith) refl (ground arith) refl (λ e. ground (arith, e)) refl
      (λ e. ground (arith, e))

abbrev newcomer : CreateBody
newcomer = record {
  password = codes "secret12";
  first_name = none;
  last_name = none;
  network_rating = pos 1;
}

abbrev table : Table
table = record { rows = rows; next_cid = 12 }

abbrev made : Made
made = record { cid = pos 12; first_name = none; last_name = none; network_rating = pos 1 }

create_success_example :
    (supervisor ≤ℤ chief.network_rating)
    × (newcomer.network_rating ≤ℤ chief.network_rating)
    × (made.network_rating ≡ newcomer.network_rating)
    × ((u : User) × (get_user_by_cid made.cid (create marking 0 chief (some newcomer) table).0.rows
          ≡ ok u)
        × (u.network_rating ≡ newcomer.network_rating)
        × (hash_password marking 0 newcomer.password ≡ ok u.password))
unfolding create create_user hash_password
create_success_example = create_success marking 0 chief newcomer table made (ground arith) refl

update_others_example :
    get_user_by_cid (pos 11) (update marking 0 chief (some raise) rows).0
    ≡ get_user_by_cid (pos 11) rows
update_others_example = update_others marking 0 chief raise (pos 11) rows (λ e. ground (arith, e))
