-- ===== src/Web/UserEditor/Forms.antt =====
-- web/static/js/openfsd/usereditor.js: the three forms of the user editor and the request bodies
-- that they send. A field's text is the list of its code units.
pub mod Requests
use mathlib.Core.Option
use openfsd.Prelude.{Bool, true, false, List, [], ◌∷◌, Option, none, some}
use openfsd.Prelude.Bytes.{Bytes}
use openfsd.Prelude.Int.{ℤ}
use openfsd.Prelude.Decimal.{parse_int, print_int}

-- A user as the API answers it; a null name is none.
pub record User : Type 0 where
  pub cid : ℤ
  pub first_name : Option Bytes
  pub last_name : Option Bytes
  pub network_rating : ℤ

-- The fields of the edit form, and whether the CID field is shown.
pub record EditForm : Type 0 where
  pub cid : Bytes
  pub cid_hidden : Bool
  pub first_name : Bytes
  pub last_name : Bytes
  pub network_rating : Bytes
  pub password : Bytes

pub record CreateForm : Type 0 where
  pub first_name : Bytes
  pub last_name : Bytes
  pub password : Bytes
  pub network_rating : Bytes

-- `parseInt` gives NaN, here none, where the text is no number; JSON writes NaN as null.
pub record UpdateBody : Type 0 where
  pub cid : Option ℤ
  pub first_name : Option Bytes
  pub last_name : Option Bytes
  pub network_rating : Option ℤ
  pub password : Option Bytes

pub record CreateBody : Type 0 where
  pub password : Bytes
  pub network_rating : Option ℤ
  pub first_name : Option Bytes
  pub last_name : Option Bytes

-- `if (text) data.field = text`.
abbrev pub if_given : Bytes → Option Bytes
if_given [] = none
if_given (c ∷ s) = some (c ∷ s)

-- What the server answered: `res.err`, or the user that was asked for.
pub data Answer : Type 0 where
  failed : Bytes → Answer
  found : User → Answer

unfoldable pub search_request : Bytes → Option ℤ
search_request cid = parse_int cid

-- The edit form behind the answer to a search; an error leaves it as it was.
unfoldable pub on_search_answer : Answer → EditForm → EditForm
on_search_answer (failed e) form = form
on_search_answer (found user) form = record {
  cid = print_int user.cid;
  cid_hidden = false;
  first_name = Option.get_or user.first_name [];
  last_name = Option.get_or user.last_name [];
  network_rating = print_int user.network_rating;
  password = [];
}

unfoldable pub edit_request : EditForm → UpdateBody
edit_request form = record {
  cid = parse_int form.cid;
  first_name = some form.first_name;
  last_name = some form.last_name;
  network_rating = parse_int form.network_rating;
  password = if_given form.password;
}

unfoldable pub create_request : CreateForm → CreateBody
create_request form = record {
  password = form.password;
  network_rating = parse_int form.network_rating;
  first_name = if_given form.first_name;
  last_name = if_given form.last_name;
}

-- The create form behind the answer: cleared where the user was created.
unfoldable pub on_create_answer : Bool → CreateForm → CreateForm
on_create_answer true form = record {
  first_name = [];
  last_name = [];
  password = [];
  network_rating = 45 ∷ 49 ∷ [];
}
on_create_answer false form = form
