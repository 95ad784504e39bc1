-- ===== src/Nginx/Ast.antt =====
-- internal/plugins/nginx/parser/ast.go: the tree, and the text that `String` writes for it.
use go_certbot.Prelude.{
  ℕ, suc, Bool, List, [], ◌∷◌, ◌++◌, Bytes, ◌==◌, if◌then◌else◌, get_elem?, Option, none, some,
  codes,
}

-- `AfterArgIndex` is the number of arguments before the comment; the source's index is one less.
pub record InternalComment : Type 0 where
  pub args_before : ℕ
  pub whitespace : Bytes
  pub value : Bytes

pub record Directive : Type 0 where
  pub whitespace : Bytes
  pub name : Bytes
  pub args : List Bytes
  pub arg_leading_ws : List Bytes
  pub semicolon : Bool
  pub trailing_comment : Bytes
  pub internal_comments : List InternalComment

pub record Comment : Type 0 where
  pub whitespace : Bytes
  pub value : Bytes

-- The fields of a `Block` but its body.
pub record BlockHead : Type 0 where
  pub whitespace : Bytes
  pub name : Bytes
  pub args : List Bytes
  pub before_close : Bytes

mutual
  pub data Node : Type 0 where
    directive : Directive → Node
    block : BlockHead → Nodes → Node
    remark : Comment → Node

  pub data Nodes : Type 0 where
    nil : Nodes
    cons : Node → Nodes → Nodes

pub record Config : Type 0 where
  pub nodes : Nodes
  pub trailing_whitespace : Bytes

-- `emitInternal`.
unfoldable pub emit_internal : ℕ → List InternalComment → Bytes
emit_internal before [] = []
emit_internal before (ic ∷ ics) =
    (if ic.args_before == before then ic.whitespace ++ ic.value else []) ++ emit_internal before ics

-- The separator before an argument: its own whitespace, or one space.
abbrev pub separator : Option Bytes → Bytes
separator none = b' ' ∷ []
separator (some []) = b' ' ∷ []
separator (some (c ∷ cs)) = c ∷ cs

-- The loop over the arguments; `i` counts those already written.
unfoldable pub emit_args : ℕ → List Bytes → List Bytes → List InternalComment → Bytes
unfolding emit_internal
emit_args i [] ws ics = []
emit_args i (a ∷ rest) ws ics =
    separator (get_elem? ws i)
    ++ (a ++ (emit_internal (suc i) ics ++ emit_args (suc i) rest ws ics))

unfoldable pub emit_directive : Directive → Bytes
unfolding emit_args
emit_directive d =
    d.whitespace
    ++ (d.name
        ++ (emit_internal 0 d.internal_comments
            ++ (emit_args 0 d.args d.arg_leading_ws d.internal_comments
                ++ ((if d.semicolon then b';' ∷ [] else []) ++ d.trailing_comment))))

unfoldable pub emit_plain_args : List Bytes → Bytes
emit_plain_args [] = []
emit_plain_args (a ∷ rest) = b' ' ∷ (a ++ emit_plain_args rest)

unfoldable mutual
  unfolding emit_directive emit_plain_args

  pub emit : Node → Bytes
  emit (directive d) = emit_directive d
  emit (block h body) =
      h.whitespace
      ++ (h.name
          ++ (emit_plain_args h.args
              ++ (codes " {" ++ (emit_all body ++ (h.before_close ++ codes "}")))))
  emit (remark c) = c.whitespace ++ c.value

  pub emit_all : Nodes → Bytes
  emit_all nil = []
  emit_all (cons n ns) = emit n ++ emit_all ns

-- `Config.String`.
unfoldable pub to_string : Config → Bytes
unfolding emit_all emit
to_string c = emit_all c.nodes ++ c.trailing_whitespace
