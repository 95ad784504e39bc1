-- ===== src/Apache/Ast.antt =====
-- The nodes of internal/plugins/apache/parser/parser.go, and how they are printed.
use go_certbot.Prelude.{List, [], ◌∷◌, ◌++◌, Bytes, codes}

pub record Directive : Type 0 where
  pub indent : Bytes
  pub name : Bytes
  pub args : List Bytes
  pub trailing_comment : Bytes
  pub newline : Bytes

-- `Section` without its body.
pub record SectionHead : Type 0 where
  pub open_indent : Bytes
  pub name : Bytes
  pub args : List Bytes
  pub open_trailing : Bytes
  pub open_newline : Bytes
  pub close_indent : Bytes
  pub close_trailing : Bytes
  pub close_newline : Bytes

pub record CommentLine : Type 0 where
  pub verbatim : Bytes
  pub newline : Bytes

mutual
  pub data Node : Type 0 where
    directive : Directive → Node
    section : SectionHead → Nodes → Node
    comment : CommentLine → Node

  pub data Nodes : Type 0 where
    nil : Nodes
    cons : Node → Nodes → Nodes

-- Each argument with a space before it.
abbrev pub emit_args : List Bytes → Bytes
emit_args [] = []
emit_args (a ∷ args) = b' ' ∷ (a ++ emit_args args)

abbrev pub emit_directive : Directive → Bytes
emit_directive d = d.indent ++ (d.name ++ (emit_args d.args ++ (d.trailing_comment ++ d.newline)))

abbrev open_tag : SectionHead → Bytes
open_tag s =
    s.open_indent
    ++ (codes "<"
        ++ (s.name ++ (emit_args s.args ++ (codes ">" ++ (s.open_trailing ++ s.open_newline)))))

abbrev close_tag : SectionHead → Bytes
close_tag s =
    s.close_indent
    ++ (codes "</" ++ (s.name ++ (codes ">" ++ (s.close_trailing ++ s.close_newline))))

unfoldable mutual
  pub emit : Node → Bytes
  emit (directive d) = emit_directive d
  emit (section s body) = open_tag s ++ (to_string body ++ close_tag s)
  emit (comment c) = c.verbatim ++ c.newline

  pub to_string : Nodes → Bytes
  to_string nil = []
  to_string (cons n ns) = emit n ++ to_string ns
