-- ===== src/Collab/Shapes.antt =====
-- internal/collab/collab.go and the types of sync_web.go: a document of shapes. Loro is third-party code:
-- a record of operations on a document with one map, whose entries are maps themselves. Of the values
-- that are no maps the code takes no notice. Numbers are of a type that nothing looks into, and
-- encoding/json's text of the points is a parameter.
use cali_go_stack.Base.{
  String, Bool, true, false, Option, none, some, List, [], ◌∷◌, ◌==◌, ◌>>=◌, Assoc, lookup,
  if◌then◌else◌,
}
use cali_go_stack.Queue.Chan.{Bytes}

pub record Shape (F : Type 0) : Type 0 where
  pub id : String
  pub kind : String
  pub x : F
  pub y : F
  pub w : F
  pub h : F
  pub points : List F
  pub color : String
  pub author : String

pub record ShapeOp (F : Type 0) : Type 0 where
  pub op : String
  pub shape : Shape F

-- A value that InsertAny stores.
pub data Value (F : Type 0) : Type 0 where
  str : String → Value F
  float : F → Value F

pub record Board (F : Type 0) : Type 1 where
  pub Doc : Type 0
  pub new_doc : Doc
  pub zero : F
  -- shapesMap.Lookup, where it finds a map, and shapesMap.All
  pub find : Doc → String → Option (Assoc (Value F))
  pub all : Doc → Assoc (Assoc (Value F))
  -- InsertMapContainer, InsertAny on the map under the key, and Clear; `none` is an error
  pub insert_map : Doc → String → Option Doc
  pub insert_any : Doc → (id key : String) → Value F → Option Doc
  pub clear : Doc → Option Doc
  pub import_update : Doc → Bytes → Option Doc
  pub export_update : Doc → Option Bytes → Option Bytes
  pub export_snapshot : Doc → Bytes
  pub points_text : List F → String
  pub points_of : String → Option (List F)

module _ {F : Type 0} (b : Board F) where
  open b use {Doc}

  abbrev pub shape_fields : Shape F → Assoc (Value F)
  shape_fields s =
      ("id", str s.id)
      ∷ ("type", str s.kind)
      ∷ ("x", float s.x)
      ∷ ("y", float s.y)
      ∷ ("w", float s.w)
      ∷ ("h", float s.h)
      ∷ ("points", str (b.points_text s.points))
      ∷ ("color", str s.color)
      ∷ ("author", str s.author)
      ∷ []

  -- The first write that fails ends the loop; what was written before stays.
  unfoldable pub write_fields : String → Assoc (Value F) → Doc → Bool × Doc
  write_fields id [] d = (true, d)
  write_fields id ((key, v) ∷ rest) d = elim (b.insert_any d id key v) [
    | none ↦ (false, d)
    | some d' ↦ write_fields id rest d'
  ]

  unfoldable pub write_shape : Shape F → Doc → Bool × Doc
  unfolding write_fields
  write_shape s d = write_fields s.id (shape_fields s) d

  -- getStr and getF64: a missing value, or one of another type, is the zero value.
  abbrev str_of : Option (Value F) → String
  str_of (some (str s)) = s
  str_of _ = ""

  abbrev float_of : Option (Value F) → F
  float_of (some (float f)) = f
  float_of _ = b.zero

  abbrev pub get_str : Assoc (Value F) → String → String
  get_str m k = str_of (lookup k m)

  abbrev pub get_f64 : Assoc (Value F) → String → F
  get_f64 m k = float_of (lookup k m)

  -- The points of an entry: an empty text is no points, a text that does not parse is an error.
  abbrev pub points_in : String → Option (List F)
  points_in raw = if raw == "" then some [] else b.points_of raw

  abbrev shape_in : String → Assoc (Value F) → List F → Shape F
  shape_in id m points = record {
    id = id;
    kind = get_str m "type";
    x = get_f64 m "x";
    y = get_f64 m "y";
    w = get_f64 m "w";
    h = get_f64 m "h";
    points = points;
    color = get_str m "color";
    author = get_str m "author";
  }

  unfoldable pub read_shapes : Assoc (Assoc (Value F)) → Option (List (Shape F))
  read_shapes [] = some []
  read_shapes ((id, m) ∷ rest) = do
    points ← points_in (get_str m "points")
    others ← read_shapes rest
    some (shape_in id m points ∷ others)

  abbrev pub resolved : Bool × Doc → Option (List (Shape F)) × Doc
  resolved (false, d) = (none, d)
  resolved (true, d) = (read_shapes (b.all d), d)

  abbrev pub entry : String → Doc → Option Doc
  entry id d = elim (b.find d id) [ none ↦ b.insert_map d id | some m ↦ some d ]

  -- ApplyShapeOp; `none` is an error.
  unfoldable pub apply_shape_op : ShapeOp F → Doc → Option (List (Shape F)) × Doc
  unfolding write_shape read_shapes
  apply_shape_op o d =
      if o.op == "add"
      then elim (entry o.shape.id d) [
        | none ↦ (none, d)
        | some d' ↦ resolved (write_shape o.shape d')
      ]
      else if o.op == "clear"
      then elim (b.clear d) [ none ↦ (none, d) | some d' ↦ (read_shapes (b.all d'), d') ]
      else (none, d)

  unfoldable pub shapes : Doc → List (Shape F)
  unfolding read_shapes
  shapes d = elim (read_shapes (b.all d)) [ none ↦ [] | some ss ↦ ss ]
