-- ===== src/Command.antt =====
-- lib/zcmdsh/command.c: the tree of the commands, by part: the specs of words, the nodes and what
-- goes over them, the match of a word, and an installed command that is executed.
pub mod Specs
pub mod Tree
