-- ===== src/Llm/Client/Items.antt =====
-- What ChatSuggest answers.
use cali_go_stack.Base.{List, map, take, Option, none, some, ◌>>=◌, trim_left}
use cali_go_stack.Llm.Reply.{
  Text, Decoder, is_bullet, first_array, cleaned, trim_space, split, newline,
}
use cali_go_stack.Llm.Reply.Short.{filled}
use cali_go_stack.Llm.Client.{Client}

-- The array of an answer, where it has one that is read.
abbrev pub array_in : Decoder → Text → Option (List Text)
array_in decode text = first_array (cleaned text) >>= decode

-- The first three that are left of the array's items without white space round them, or of the
-- lines without their bullets.
abbrev pub wanted : Option (List Text) → Text → List Text
wanted (some items) text = take 3 (filled (map trim_space items))
wanted none text =
    take 3 (filled (map (λ line. trim_left is_bullet (trim_space line)) (split newline text)))
