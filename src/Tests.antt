-- ===== src/Tests.antt =====
-- Examples at which the theorems apply.
mod Files
mod Formats
mod Objects
mod Trees
mod Resets
mod Appenders
mod Sockets
mod Queues
mod Contexts
mod Levels
mod Rollovers
mod Sizes
mod Attached
mod Properties
mod Patterns
mod Configurations
