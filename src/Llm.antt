-- ===== src/Llm.antt =====
-- internal/llm: the client of a language model, the server that stands in for one, and what is read
-- from a model's answer.
pub mod Reply
pub mod Fake
pub mod Client
