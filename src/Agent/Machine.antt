-- ===== src/Agent/Machine.antt =====
-- backend/api/app/application/agent_execution_machine.py with agent_execution_types.py and
-- agent_execution_event_writer.py. The machine's collaborators (executor, critic, replanner, gate,
-- auditor, reviewer, summarizer) are models or processes outside: what they answer in the dispatch of
-- one node is an `Answers`, and a run takes one for each node, so that answers may differ each time.
pub mod Types
pub mod Events
pub mod Nodes
pub mod Chain
pub mod Run
pub mod Stages
pub mod Trace
pub mod Budget
pub mod Resume
pub mod Progress
mod Examples
