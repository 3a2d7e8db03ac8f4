-- ===== src/Tests.antt =====
-- Runs of the model on concrete inputs, and the results with hypotheses at inputs that meet them.
mod Util
mod Net
mod Http
mod Parser
mod Response
mod Cache
mod Main
mod Timer
mod Pool
mod Io
mod Proxy
mod Server
mod Queue
mod Sockets
mod Levels
mod Loop
mod Notify
